-- ===== src/FileMagic.antt =====
-- libwm/filemagic.h and libwm/filemagic.cc: MIME types and their text, and the questions to
-- libmagic, which is a parameter.
pub mod Equality
pub mod Total
pub mod Words
pub mod Parameter
pub mod Usual
pub mod Answers
use extractor.Base.{
  ℕ, zero, suc, Bool, true, false, not, ◌&&◌, ◌||◌, Option, none, some, List, [], ◌∷◌, ◌++◌, Bytes,
  Dict, codes, bytes_eq, bytes_key, is_empty, is_digit, is_space, leb, ◌==◌, if◌then◌else◌, assign,
  drop, length,
}
use extractor.Regex.{Item, Match, lit, spaces, search_regex, group}
use extractor.Regex.Groups.{Pattern, search_groups, group_text, Groups}

pub record MimeType : Type 0 where
  pub type : Bytes
  pub tree : Bytes
  pub sub_type : Bytes
  pub suffix : Bytes
  pub parameters : Dict Bytes Bytes

abbrev pub empty_mime : MimeType
empty_mime = record { type = []; tree = []; sub_type = []; suffix = []; parameters = [] }

-- The setters
unfoldable pub set_type : Bytes → MimeType → MimeType
set_type t m = record m { type = t }

unfoldable pub set_tree : Bytes → MimeType → MimeType
set_tree t m = record m { tree = t }

unfoldable pub set_sub_type : Bytes → MimeType → MimeType
set_sub_type t m = record m { sub_type = t }

unfoldable pub set_suffix : Bytes → MimeType → MimeType
set_suffix t m = record m { suffix = t }

unfoldable pub set_parameters : Dict Bytes Bytes → MimeType → MimeType
set_parameters ps m = record m { parameters = ps }

unfoldable pub set_parameter : Bytes → Bytes → MimeType → MimeType
unfolding assign
set_parameter name value m = record m { parameters = assign name value m.parameters }

unfoldable pub print_parameters : Dict Bytes Bytes → Bytes
print_parameters [] = []
print_parameters ((name, value) ∷ ps) =
    codes ";" ++ (name ++ (codes "=" ++ (value ++ print_parameters ps)))

-- `operator<<` of a MIME type
unfoldable pub print_mime : MimeType → Bytes
unfolding print_parameters
print_mime m =
    codes "MimeType["
    ++ (m.type
        ++ (codes "/"
            ++ ((if not (is_empty m.tree) then m.tree ++ codes "." else [])
                ++ (m.sub_type
                    ++ ((if not (is_empty m.suffix) then codes "+" ++ m.suffix else [])
                        ++ (print_parameters m.parameters ++ codes "]"))))))

-- `operator==` of the maps of parameters
unfoldable pub parameters_eq : Dict Bytes Bytes → Dict Bytes Bytes → Bool
unfolding bytes_eq
parameters_eq [] [] = true
parameters_eq ((n, v) ∷ ps) ((m, w) ∷ qs) = (bytes_eq n m && bytes_eq v w) && parameters_eq ps qs
parameters_eq _ _ = false

-- `operator==` of MIME types
unfoldable pub mime_eq : MimeType → MimeType → Bool
unfolding bytes_eq parameters_eq
mime_eq a b =
    bytes_eq a.type b.type
    && (bytes_eq a.tree b.tree
        && (bytes_eq a.sub_type b.sub_type
            && (bytes_eq a.suffix b.suffix && parameters_eq a.parameters b.parameters)))

-- The classes `\w` and `[\w-]`
unfoldable pub is_word_char : ℕ → Bool
unfolding is_digit
is_word_char c = (is_digit c || c == b'_') || (leb b'a' c && leb c b'z' || leb b'A' c && leb c b'Z')

unfoldable pub is_name_char : ℕ → Bool
unfolding is_word_char
is_name_char c = is_word_char c || c == b'-'

abbrev pub sign : ℕ → Pattern
sign c = Pattern.char (λ x. x == c)

abbrev pub some_of : (ℕ → Bool) → Pattern
some_of c = Pattern.seq (Pattern.char c) (Pattern.many (Pattern.char c))

abbrev pub any_of_spaces : Pattern
any_of_spaces = Pattern.many (Pattern.char is_space)

-- `((\w+)\.)?`
unfoldable pub tree_pattern : Pattern
tree_pattern =
    Pattern.maybe
      (Pattern.group 2 (Pattern.seq (Pattern.group 3 (some_of is_word_char)) (sign b'.')))

-- `(([\w-]+(\+\+)?)(\+(\w+))?)`
unfoldable pub sub_type_pattern : Pattern
sub_type_pattern = Pattern.group 4 (
    Pattern.seq
      (Pattern.group 5 (
        Pattern.seq (some_of is_name_char)
          (Pattern.maybe (Pattern.group 6 (Pattern.seq (sign b'+') (sign b'+'))))))
      (Pattern.maybe
        (Pattern.group 7 (Pattern.seq (sign b'+') (Pattern.group 8 (some_of is_word_char))))))

-- `((\s*;\s*\w+=[\w-]+)*)`
unfoldable pub list_pattern : Pattern
list_pattern = Pattern.group 9 (
    Pattern.many (
      Pattern.group 10 (
        Pattern.seq any_of_spaces (
          Pattern.seq (sign b';') (
            Pattern.seq any_of_spaces (
              Pattern.seq (some_of is_word_char)
                (Pattern.seq (sign b'=') (some_of is_name_char))))))))

-- `rxMimeString`
unfoldable pub mime_pattern : Pattern
unfolding tree_pattern sub_type_pattern list_pattern
mime_pattern = Pattern.seq (Pattern.group 1 (some_of is_word_char)) (
    Pattern.seq (sign b'/') (
      Pattern.seq tree_pattern
        (Pattern.seq sub_type_pattern (Pattern.seq any_of_spaces list_pattern))))

-- `rxPVString`: `;\s*(\w+)=([\w-]+)`
unfoldable pub parameter_regex : List Item
parameter_regex =
    lit b';'
    ∷ spaces
    ∷ Item.mark
    ∷ Item.one is_word_char
    ∷ Item.star is_word_char
    ∷ Item.mark
    ∷ lit b'='
    ∷ Item.mark
    ∷ Item.one is_name_char
    ∷ Item.star is_name_char
    ∷ Item.mark
    ∷ []

-- The loop over the list of parameters, on fuel
unfoldable pub parameters_loop : ℕ → Bytes → Dict Bytes Bytes → Option (Dict Bytes Bytes)
unfolding search_regex parameter_regex assign
parameters_loop zero text ps = none
parameters_loop (suc fuel) text ps = elim (search_regex parameter_regex text) [
  | none ↦ some ps
  | some m ↦
      parameters_loop fuel (drop m.second text) (assign (group m 0 1 text) (group m 2 3 text) ps)
]

-- The parts of a text where the pattern is found: all ten groups are there.
unfoldable pub mime_parts : Bytes → Groups → Option (Dict Bytes Bytes) → Option MimeType
mime_parts text gs none = none
mime_parts text gs (some ps) = some (record {
  type = group_text 1 gs text;
  tree = group_text 3 gs text;
  sub_type = group_text 5 gs text;
  suffix = group_text 8 gs text;
  parameters = ps;
})

unfoldable pub mime_of : Bytes → Groups → Option MimeType
mime_of text gs =
    let list = group_text 9 gs text in
    mime_parts text gs (parameters_loop (suc (length list)) list [])

unfoldable pub parse_mime : Bytes → Option MimeType
unfolding search_groups mime_pattern mime_of mime_parts parameters_loop group_text
parse_mime text = elim (search_groups mime_pattern text) [
  | none ↦ none
  | some (e, gs) ↦ mime_of text gs
]

-- `parse(optional)`
unfoldable pub parse_optional : Option Bytes → Option MimeType
unfolding parse_mime
parse_optional none = none
parse_optional (some text) = parse_mime text

-- libmagic: whether the library can be opened and its data loaded, and what it tells of a file.
pub record Magic : Type 0 where
  pub is_open : Bool
  pub loads : Bool
  pub file : Bytes → Option Bytes

-- The static members of `FileMagicImpl`
pub record FileMagic : Type 0 where
  pub magic : Bool
  pub loaded : Bool

module _ (system : Magic) where
  -- `FileMagicImpl()`
  unfoldable pub open_magic : FileMagic → FileMagic
  open_magic s =
      let magic = s.magic || system.is_open in
      record { magic = magic; loaded = s.loaded || (magic && system.loads) }

  -- `mime(filename)`
  unfoldable pub mime_string : (Bytes → Bool) → FileMagic → Bytes → Option Bytes
  mime_string exists s file_name =
      if not s.magic then none else if not (exists file_name) then none else system.file file_name

  -- `mimeType(filename)`
  unfoldable pub mime_type : (Bytes → Bool) → FileMagic → Bytes → Option MimeType
  unfolding mime_string parse_optional
  mime_type exists s file_name = parse_optional (mime_string exists s file_name)
