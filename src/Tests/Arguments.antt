-- ===== src/Tests/Arguments.antt =====
-- Command lines, and the theorems on their parsing at them.
use extractor.Base.{
  ◌≡◌, refl, true, false, some, List, [], ◌∷◌, ◌++◌, Bytes, codes, Outcome, ok, fault, undefined,
  Returns, bytes_eq, Holds,
}
use extractor.CommandLine.{
  CommandLineParser, new_option, add, has_name, has_letter, find_option, option, parse_args,
}
use extractor.CommandLine.Values.{long, parse_args-long, parse_args-long_last}
use extractor.CommandLine.Keeps.{Keeps, parse_args-Keeps}
use extractor.CommandLine.Flags.{words, parse_args-words}

abbrev no_options : CommandLineParser
no_options = record { options = []; positionals = []; invalid_options = [] }

abbrev with_options : CommandLineParser
with_options =
    add (new_option (codes "output" ∷ codes "o" ∷ []) true)
      (add (new_option (codes "verbose" ∷ codes "v" ∷ []) false) no_options)

abbrev flags_only : CommandLineParser
flags_only = add (new_option (codes "verbose" ∷ codes "v" ∷ []) false) no_options

run_arguments : List Bytes → CommandLineParser → Outcome CommandLineParser
unfolding parse_args find_option has_name has_letter bytes_eq
run_arguments = parse_args

abbrev arguments : List Bytes
arguments = codes "-v" ∷ codes "a.cc" ∷ codes "--unknown" ∷ []

abbrev after_arguments : CommandLineParser
after_arguments = record {
  options =
      record (new_option (codes "verbose" ∷ codes "v" ∷ []) false) { is_set = true }
      ∷ new_option (codes "output" ∷ codes "o" ∷ []) true
      ∷ [];
  positionals = codes "a.cc" ∷ [];
  invalid_options = new_option (codes "unknown" ∷ []) false ∷ [];
}

parse-arguments : parse_args arguments with_options ≡ ok after_arguments
unfolding run_arguments
parse-arguments = refl

output_found :
    find_option (has_name (codes "output")) after_arguments.options
    ≡ some (new_option (codes "output" ∷ codes "o" ∷ []) true)
unfolding run_arguments
output_found = refl

parse_args-long_example :
    Returns
      (λ u.
        (option (codes "output") u
          ≡ record (new_option (codes "output" ∷ codes "o" ∷ []) true) { value = codes "b" })
        × (u.positionals ≡ codes "a.cc" ∷ []))
      (parse_args (arguments ++ long (codes "output") ∷ codes "b" ∷ []) with_options)
parse_args-long_example =
    parse_args-long arguments (codes "output") (codes "b") with_options parse-arguments output_found
      refl

parse_args-long_last_example :
    parse_args (arguments ++ long (codes "output") ∷ []) with_options ≡ fault undefined
parse_args-long_last_example =
    parse_args-long_last arguments (codes "output") with_options parse-arguments output_found refl

parse_args-Keeps_example : Holds (Keeps with_options) (parse_args arguments with_options)
parse_args-Keeps_example = parse_args-Keeps arguments with_options

parse_args-words_example :
    Returns (λ t. t.positionals ≡ [] ++ words arguments) (parse_args arguments flags_only)
parse_args-words_example = parse_args-words arguments flags_only (refl, tt)
