-- ===== src/Avrasmopt.antt =====
-- extract/avrasmopt.cc: the program `avrasmopt`, which reads its command line and prints it.
use extractor.Base.{
  true, false, List, [], ◌∷◌, ◌++◌, Bytes, codes, if◌then◌else◌, Outcome, ok, fault, undefined,
  ◌>>=◌, ◌≡◌, ◌∙◌, refl, ap, sym, Bool, All, map, Holds,
}
use extractor.CommandLine.{
  CommandLineOption, CommandLineParser, new_option, add, parse_args, option, is_given,
  print_options, print_option,
}
use extractor.CommandLine.Named.{IsNamed, AllNamed, parse_args-AllNamed}
use extractor.CommandLine.Keeps.{Keeps, parse_args-Keeps}
use extractor.CommandLine.Keeps
use extractor.Streams.{print_list}

-- What is written to `std::cerr` and to `std::cout`
pub record Printed : Type 0 where
  pub errors : Bytes
  pub output : Bytes

-- The parser with the options of the program
abbrev pub declared : CommandLineParser
declared = add (new_option (codes "n" ∷ codes "linenumbers" ∷ []) false) (
    add (new_option (codes "o" ∷ codes "output" ∷ []) true) (
      add (new_option (codes "v" ∷ codes "verbose" ∷ []) false) (
        add (new_option (codes "h" ∷ codes "help" ∷ []) false)
          (record { options = []; positionals = []; invalid_options = [] }))))

-- `names().front()`
unfoldable pub first_name : CommandLineOption → Outcome Bytes
first_name o = elim o.names [ [] ↦ fault undefined | name ∷ names ↦ ok name ]

-- The loop over the invalid options
unfoldable pub report_invalid : List CommandLineOption → Outcome Bytes
unfolding first_name
report_invalid [] = ok []
report_invalid (o ∷ os) = do
  name ← first_name o
  others ← report_invalid os
  ok (codes "invalid option: " ++ (name ++ (10 ∷ others)))

-- `main`, where `version` is the text of `__cplusplus`; the options and the file names have no
-- effect but the help.
unfoldable pub avrasmopt_main : Bytes → List Bytes → Outcome Printed
unfolding parse_args report_invalid option is_given print_options
avrasmopt_main version args = do
  parser ← parse_args args declared
  errors ← report_invalid parser.invalid_options
  let help =
        if is_given (option (codes "h") parser)
        then version ++ (10 ∷ print_options parser.options)
        else [] in
      ok (record { errors = errors; output = help })

-- The name that a message shows, and the messages for the names
abbrev pub shown_name : CommandLineOption → Bytes
shown_name o = elim o.names [ [] ↦ [] | name ∷ names ↦ name ]

abbrev pub message : CommandLineOption → Bytes
message o = codes "invalid option: " ++ (shown_name o ++ (10 ∷ []))

abbrev pub messages : List CommandLineOption → Bytes
messages [] = []
messages (o ∷ os) = message o ++ messages os

first_name-IsNamed :
    (o : CommandLineOption) (names : List Bytes)
    → o.names ≡ names
    → IsNamed o
    → first_name o ≡ ok (shown_name o)
unfolding first_name
first_name-IsNamed o [] e named = absurd (named e)
first_name-IsNamed o (n ∷ ns) e named = rw (e, first_name) refl

append_line : (xs ys zs : Bytes) → xs ++ (ys ++ (10 ∷ zs)) ≡ (xs ++ (ys ++ (10 ∷ []))) ++ zs
append_line [] [] zs = refl
append_line [] (y ∷ ys) zs = rw (append_line [] ys zs) refl
append_line (x ∷ xs) ys zs = rw (append_line xs ys zs) refl

report_invalid-messages :
    (os : List CommandLineOption) → All IsNamed os → report_invalid os ≡ ok (messages os)
unfolding report_invalid
report_invalid-messages [] h = refl
report_invalid-messages (o ∷ os) h =
    rw (report_invalid, first_name-IsNamed o o.names refl h.0, report_invalid-messages os h.1)
      (rw (append_line (codes "invalid option: ") (shown_name o) (messages os)) refl)

-- The text of the options from what is declared of them
abbrev shown : List (List Bytes × Bool) → Bytes
shown [] = []
shown (d ∷ ds) = (codes "CommandLineOption" ++ print_list (λ name. name) d.0) ++ (10 ∷ shown ds)

print_options-shown :
    (os : List CommandLineOption) → print_options os ≡ shown (map Keeps.declared os)
unfolding print_options print_option
print_options-shown [] = refl
print_options-shown (o ∷ os) =
    ap (λ rest. (codes "CommandLineOption" ++ print_list (λ name. name) o.names) ++ (10 ∷ rest))
      (print_options-shown os)

print_options-Keeps :
    (s t : CommandLineParser) → Keeps s t → print_options t.options ≡ print_options s.options
print_options-Keeps s t k =
    print_options-shown t.options ∙ ap shown k.same ∙ sym (print_options-shown s.options)

-- The text for the help, which is the same for all arguments
abbrev pub help_text : Bytes → Bytes
help_text version = version ++ (10 ∷ print_options declared.options)

report :
    (version : Bytes) (args : List Bytes) (m : Outcome CommandLineParser)
    → parse_args args declared ≡ m
    → Holds AllNamed m
    → Holds (Keeps declared) m
    → avrasmopt_main version args ≡ (
        m >>= λ s. ok (record {
          errors = messages s.invalid_options;
          output = if is_given (option (codes "h") s) then help_text version else [];
        }))
unfolding avrasmopt_main
report version args (fault why) parsed named kept = rw (avrasmopt_main, parsed) refl
report version args (ok s) parsed named kept =
    rw
      (
        avrasmopt_main,
        parsed,
        report_invalid-messages s.invalid_options named,
        print_options-Keeps declared s kept,
      )
      refl

-- Whatever the arguments are, the program fails only where the parser does: each option that the
-- parser finds invalid has a name, and its message shows the first one. With the option `h` it
-- also prints the version and the names of the declared options, the same for all arguments.
pub avrasmopt_main-messages :
    (version : Bytes) (args : List Bytes)
    → avrasmopt_main version args ≡ (
        parse_args args declared >>= λ s. ok (record {
          errors = messages s.invalid_options;
          output = if is_given (option (codes "h") s) then help_text version else [];
        }))
avrasmopt_main-messages version args =
    report version args (parse_args args declared) refl (parse_args-AllNamed args declared tt)
      (parse_args-Keeps args declared)
