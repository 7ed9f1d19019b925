-- ===== src/Asm/Patterns.antt =====
-- The regular expressions of `AsmExtractor`.
use extractor.Base.{
  ℕ, Bool, ◌||◌, ◌&&◌, List, [], ◌∷◌, ◌++◌, ◌==◌, leb, map, codes, is_space, is_digit,
}
use extractor.Regex.{Item, lit, spaces}

-- `[A-Za-z0-9_]`
unfoldable pub is_word : ℕ → Bool
unfolding is_digit
is_word c = leb b'A' c && leb c b'Z' || leb b'a' c && leb c b'z' || is_digit c || c == b'_'

-- `[A-Za-z0-9_\.]`
unfoldable pub is_symbol : ℕ → Bool
unfolding is_word
is_symbol c = is_word c || c == b'.'

-- `\s+`
abbrev some_spaces : List Item
some_spaces = Item.one is_space ∷ spaces ∷ []

-- A group of at least one character of a class.
abbrev word_group : (ℕ → Bool) → List Item
word_group c = Item.mark ∷ Item.one c ∷ Item.star c ∷ Item.mark ∷ []

-- `^\s*\.type\s+([A-Za-z0-9_\.]+),\s+@function`
unfoldable pub function_start_regex : List Item
function_start_regex =
    Item.begin
    ∷ spaces
    ∷ (map lit (codes ".type")
        ++ (some_spaces
            ++ (word_group is_symbol ++ (lit b',' ∷ (some_spaces ++ map lit (codes "@function"))))))

-- `^\s*\.size\s+([A-Za-z0-9_\.]+)`
unfoldable pub function_end_regex : List Item
function_end_regex =
    Item.begin
    ∷ spaces
    ∷ lit b'.'
    ∷ (map lit (codes "size") ++ (some_spaces ++ word_group is_symbol))

-- `^\s*;=+\s*([A-Za-z0-9_]+)`
unfoldable pub function_name_regex : List Item
function_name_regex =
    Item.begin
    ∷ spaces
    ∷ lit b';'
    ∷ lit b'='
    ∷ Item.star (λ x. x == b'=')
    ∷ spaces
    ∷ word_group is_word
