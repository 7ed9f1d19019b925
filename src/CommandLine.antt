-- ===== src/CommandLine.antt =====
-- extract/commandlineoption.h, extract/commandlineoption.cc, extract/commandlineparser.h and
-- extract/commandlineparser.cc: the options of a command line and their parser.
pub mod Values
pub mod Keeps
pub mod Flags
pub mod Named
use extractor.Streams.{print_list}
use extractor.Base.{
  ℕ, Bool, true, false, not, ◌&&◌, ◌||◌, Option, none, some, List, [], ◌∷◌, ◌++◌, Bytes, codes,
  is_empty, any_of, bytes_eq, ◌==◌, if◌then◌else◌, Outcome, ok, fault, undefined,
}

pub record CommandLineOption : Type 0 where
  pub names : List Bytes
  pub has_value : Bool
  pub is_set : Bool
  pub value : Bytes

-- `CommandLineOption(names, hasValue)`
abbrev pub new_option : List Bytes → Bool → CommandLineOption
new_option names has_value = record {
  names = names;
  has_value = has_value;
  is_set = false;
  value = [];
}

-- `set(value)`: the option afterwards, and what is returned.
unfoldable pub set : Bool → CommandLineOption → CommandLineOption × Bool
set value o = if o.has_value then (o, false) else (record o { is_set = value }, true)

-- `setValue(value)`
unfoldable pub set_value : Bytes → CommandLineOption → CommandLineOption × Bool
set_value value o = if not o.has_value then (o, false) else (record o { value = value }, true)

-- `operator bool`
unfoldable pub is_given : CommandLineOption → Bool
is_given o = o.has_value && not (is_empty o.value) || not o.has_value && o.is_set

-- `option == string`
unfoldable pub has_name : Bytes → CommandLineOption → Bool
has_name string o = any_of (λ name. bytes_eq name string) o.names

-- `name.size() == 1 && name.at(0) == c`
is_letter : ℕ → Bytes → Bool
is_letter c (x ∷ []) = x == c
is_letter c _ = false

-- `option == c`
unfoldable pub has_letter : ℕ → CommandLineOption → Bool
unfolding is_letter
has_letter c o = any_of (is_letter c) o.names

pub record CommandLineParser : Type 0 where
  pub options : List CommandLineOption
  pub positionals : List Bytes
  pub invalid_options : List CommandLineOption

-- `add(option)`
abbrev pub add : CommandLineOption → CommandLineParser → CommandLineParser
add o s = record s { options = s.options ++ o ∷ [] }

-- `std::find(mOptions.begin(), mOptions.end(), …)` and the reference to what it finds.
unfoldable pub find_option :
    (CommandLineOption → Bool) → List CommandLineOption → Option CommandLineOption
find_option p [] = none
find_option p (o ∷ os) = let later = find_option p os in if p o then some o else later

-- A write to the option that is found.
unfoldable pub write_option :
    (CommandLineOption → Bool) → CommandLineOption → List CommandLineOption → List CommandLineOption
write_option p o' [] = []
write_option p o' (o ∷ os) = let later = write_option p o' os in if p o then o' ∷ os else o ∷ later

-- `option(name)`
unfoldable pub option : Bytes → CommandLineParser → CommandLineOption
unfolding find_option
option name s = elim (find_option (has_name name) s.options) [
  | some o ↦ o
  | none ↦ new_option [] false
]

-- What an argument makes of the parser: it is done with, or it asks for the argument after it.
pub data Step : Type 0 where
  done : CommandLineParser → Step
  wants : (Bytes → CommandLineParser) → Step

abbrev pub invalid : CommandLineOption → CommandLineParser → CommandLineParser
invalid o s = record s { invalid_options = s.invalid_options ++ o ∷ [] }

-- `--name`
unfoldable pub long_option : Bytes → CommandLineParser → Step
unfolding find_option write_option set set_value
long_option name s = elim (find_option (has_name name) s.options) [
  | none ↦ done (invalid (new_option (name ∷ []) false) s)
  | some o ↦
      if o.has_value
      then wants (λ value. record s {
        options = write_option (has_name name) (set_value value o).0 s.options;
      })
      else done (record s { options = write_option (has_name name) (set true o).0 s.options })
]

-- What `setValue` or `set` of the option that is found makes of the parser.
unfoldable pub short_result :
    ℕ → CommandLineOption → CommandLineOption × Bool → CommandLineParser → CommandLineParser
unfolding write_option
short_result letter o (o', accepted) s =
    if accepted
    then record s { options = write_option (has_letter letter) o' s.options }
    else invalid o s

-- `-c` or `-cvalue`
unfoldable pub short_option : ℕ → Bytes → CommandLineParser → CommandLineParser
unfolding find_option set set_value short_result
short_option letter rest s = elim (find_option (has_letter letter) s.options) [
  | none ↦ invalid (new_option ((letter ∷ []) ∷ []) false) s
  | some o ↦ short_result letter o (if is_empty rest then set true o else set_value rest o) s
]

unfoldable pub parse_dashed : Bytes → CommandLineParser → Step
unfolding long_option short_option
parse_dashed [] s = done s
parse_dashed (c ∷ rest) s = if c == b'-' then long_option rest s else done (short_option c rest s)

-- One round of the loop.
unfoldable pub parse_arg : Bytes → CommandLineParser → Step
unfolding parse_dashed
parse_arg [] s = done s
parse_arg (c ∷ rest) s =
    if not (c == b'-')
    then done (record s { positionals = s.positionals ++ (c ∷ rest) ∷ [] })
    else parse_dashed rest s

-- `parse()`: a value behind the last argument is read from `mArguments.end()`.
unfoldable pub parse_args : List Bytes → CommandLineParser → Outcome CommandLineParser
unfolding parse_arg
parse_args [] s = ok s
parse_args (arg ∷ []) s = elim (parse_arg arg s) [ done t ↦ ok t | wants f ↦ fault undefined ]
parse_args (arg ∷ next ∷ rest) s = elim (parse_arg arg s) [
  | done t ↦ parse_args (next ∷ rest) t
  | wants f ↦ parse_args rest (f next)
]

-- `operator<<` of an option and of the parser
unfoldable pub print_option : CommandLineOption → Bytes
unfolding print_list
print_option o = codes "CommandLineOption" ++ print_list (λ name. name) o.names

unfoldable pub print_options : List CommandLineOption → Bytes
unfolding print_option
print_options [] = []
print_options (o ∷ os) = print_option o ++ (10 ∷ print_options os)
