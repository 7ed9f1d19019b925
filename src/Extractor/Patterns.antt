-- ===== src/Extractor/Patterns.antt =====
-- The regular expressions of `CppExtractor::parse`, those of Lua in place of those of C++ where
-- `mLua` is set.
use extractor.Base.{Bool, not, List, [], ◌∷◌, ◌==◌, if◌then◌else◌, is_space, is_digit}
use extractor.Regex.{Item, lit, spaces, any_text}

-- `[^+]{0,1}`
abbrev not_plus : Item
not_plus = Item.opt (λ x. not (x == b'+'))

-- `^\s*/\*[^+]{0,1}\s*$` and `^\s*--\[\[[^+]{0,1}\s*$`
unfoldable pub start_block_comment : Bool → List Item
start_block_comment lua =
    if lua
    then Item.begin
      ∷ spaces
      ∷ lit b'-'
      ∷ lit b'-'
      ∷ lit b'['
      ∷ lit b'['
      ∷ not_plus
      ∷ spaces
      ∷ Item.end
      ∷ []
    else Item.begin ∷ spaces ∷ lit b'/' ∷ lit b'*' ∷ not_plus ∷ spaces ∷ Item.end ∷ []

-- `^\s*\*/` and `^\s*--\]\]`
unfoldable pub end_block_comment : Bool → List Item
end_block_comment lua =
    if lua
    then Item.begin ∷ spaces ∷ lit b'-' ∷ lit b'-' ∷ lit b']' ∷ lit b']' ∷ []
    else Item.begin ∷ spaces ∷ lit b'*' ∷ lit b'/' ∷ []

-- `\s*(<([0-9]*)>)\s*(.*)`; marks 0 and 3 open and close group 1, 1 and 2 group 2, 4 and 5 group 3
abbrev pub call_out_tail : List Item
call_out_tail =
    spaces
    ∷ Item.mark
    ∷ lit b'<'
    ∷ Item.mark
    ∷ Item.star is_digit
    ∷ Item.mark
    ∷ lit b'>'
    ∷ Item.mark
    ∷ spaces
    ∷ Item.mark
    ∷ any_text
    ∷ Item.mark
    ∷ []

-- `//\s*(<([0-9]*)>)\s*(.*)` and `--\s*(<([0-9]*)>)\s*(.*)`
unfoldable pub call_out_regex : Bool → List Item
call_out_regex lua =
    if lua then lit b'-' ∷ lit b'-' ∷ call_out_tail else lit b'/' ∷ lit b'/' ∷ call_out_tail

-- `^\s*//\[` and `^\s*--\{`
unfoldable pub snippet_start_regex : Bool → List Item
snippet_start_regex lua =
    if lua
    then Item.begin ∷ spaces ∷ lit b'-' ∷ lit b'-' ∷ lit b'{' ∷ []
    else Item.begin ∷ spaces ∷ lit b'/' ∷ lit b'/' ∷ lit b'[' ∷ []

-- `^\s*//\]` and `^\s*--\}`
unfoldable pub snippet_end_regex : Bool → List Item
snippet_end_regex lua =
    if lua
    then Item.begin ∷ spaces ∷ lit b'-' ∷ lit b'-' ∷ lit b'}' ∷ []
    else Item.begin ∷ spaces ∷ lit b'/' ∷ lit b'/' ∷ lit b']' ∷ []

-- `//-\s*$`
unfoldable pub omit_line_regex : List Item
omit_line_regex = lit b'/' ∷ lit b'/' ∷ lit b'-' ∷ spaces ∷ Item.end ∷ []

-- `//\*`
unfoldable pub highlight_regex : List Item
highlight_regex = lit b'/' ∷ lit b'/' ∷ lit b'*' ∷ []

-- `\s\+\*`
unfoldable pub highlight_section_include_regex : List Item
highlight_section_include_regex = Item.one is_space ∷ lit b'+' ∷ lit b'*' ∷ []

-- `\s-\*`
unfoldable pub highlight_section_exclude_regex : List Item
highlight_section_exclude_regex = Item.one is_space ∷ lit b'-' ∷ lit b'*' ∷ []
