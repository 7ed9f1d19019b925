-- ===== src/Tests/Paths.antt =====
-- Prefixes of paths and the command line of `avrasmopt` at concrete values.
use extractor.Base.{
  ◌≡◌, ◌↔◌, refl, true, false, List, [], ◌∷◌, Bytes, codes, bytes_eq, Outcome, ok, fault, undefined,
  if◌then◌else◌, ◌>>=◌,
}
use extractor.Filesystem.{is_prefix, Starts, Exceeds, is_prefix_iff, is_executable}
use extractor.CommandLine.{parse_args, option, is_given}
use extractor.Avrasmopt.{
  Printed, declared, avrasmopt_main, messages, help_text, avrasmopt_main-messages,
}

abbrev usr : List Bytes
usr = codes "/" ∷ codes "usr" ∷ []

abbrev usr_lib : List Bytes
usr_lib = codes "/" ∷ codes "usr" ∷ codes "lib" ∷ []

is_prefix-usr : is_prefix usr usr_lib ≡ ok true
unfolding is_prefix bytes_eq
is_prefix-usr = refl

-- The end of the second path is read.
is_prefix-usr_lib : is_prefix usr_lib usr ≡ fault undefined
unfolding is_prefix bytes_eq
is_prefix-usr_lib = refl

is_prefix_iff_example :
    ((is_prefix usr usr_lib ≡ ok true) ↔ Starts usr usr_lib)
    × ((is_prefix usr usr_lib ≡ fault undefined) ↔ Exceeds usr usr_lib)
is_prefix_iff_example = is_prefix_iff usr usr_lib

is_executable-missing : is_executable (λ path. ok false) (λ path. true) (codes "/usr") ≡ ok false
unfolding is_executable
is_executable-missing = refl

abbrev version : Bytes
version = codes "201703"

abbrev arguments : List Bytes
arguments = codes "-x" ∷ codes "-vno" ∷ codes "--help" ∷ []

unfoldable printed : Outcome Printed
unfolding avrasmopt_main
printed = avrasmopt_main version arguments

avrasmopt_main-messages_example : avrasmopt_main version arguments ≡ (
    parse_args arguments declared >>= λ s. ok (record {
      errors = messages s.invalid_options;
      output = if is_given (option (codes "h") s) then help_text version else [];
    }))
avrasmopt_main-messages_example = avrasmopt_main-messages version arguments
