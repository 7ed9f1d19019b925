-- ===== src/Extractor/Parse.antt =====
-- extract/cppextractor.cc: `CppExtractor::parse`. The local variables of the function and the
-- object make up the state of the loop; a round of the loop is `next_line`.
mod State
mod Start
mod End
unfoldable pub use State.*
unfoldable pub use Start.*
unfoldable pub use End.*
use extractor.Base.{
  ℕ, zero, suc, ◌+◌, ◌-◌, Bool, true, false, not, ◌&&◌, ◌||◌, List, [], ◌∷◌, ◌++◌, Option, none,
  some, Bytes, Dict, ltb, ◌==◌, if◌then◌else◌, is_empty, length, take, drop, slice, lookup,
  lookup_or, assign, emplace, insert, insert_all, bytes_eq, codes, digits_value, ℤ, pos, negsuc,
  Outcome, ok, fault, Fault, out_of_range, undefined, ◌>>=◌, nat_key, bytes_key,
}
use extractor.Boost.{Boost}
use extractor.Regex.{Match, search_regex, is_found, mark_at, group}
use extractor.Extractor.{Snippet, CallOut, Extractor}
use extractor.Extractor.Patterns.{
  start_block_comment, end_block_comment, call_out_regex, snippet_start_regex, snippet_end_regex,
  omit_line_regex, highlight_regex, highlight_section_include_regex,
  highlight_section_exclude_regex,
}

-- `case ParsingStatus::BlockComment`
unfoldable pub comment_line : Parsing → Bytes → Parsing
comment_line s line =
    if s.self.skip_block_comments && is_found (end_block_comment s.self.lua) line
    then record s { status = normal }
    else s

module _ (boost : Boost) where
  -- The chain of tests for a callout, the start and the end of a snippet.
  unfoldable pub dispatch : Parsing → Bytes → Outcome Parsing
  unfolding call_out_line start_line end_line push_line
  dispatch s line = elim (search_regex (call_out_regex s.self.lua) line) [
    | some m ↦ call_out_line s line m
    | none ↦ elim (search_regex (snippet_start_regex s.self.lua) line) [
      | some m ↦ start_line boost s line m
      | none ↦
          if is_found (snippet_end_regex s.self.lua) line
          then ok (end_line s line)
          else ok (push_line s line)
    ]
  ]

  unfoldable pub block_or_text : Parsing → Bytes → Outcome Parsing
  unfolding dispatch
  block_or_text s line =
      if s.self.skip_block_comments && is_found (start_block_comment s.self.lua) line
      then ok (record s { status = block_comment })
      else dispatch s line

  unfoldable pub omit_or_text : Parsing → Bytes → Outcome Parsing
  unfolding block_or_text
  omit_or_text s line = elim (search_regex omit_line_regex line) [
    | none ↦ block_or_text s line
    | some m ↦
        if s.self.include_omitted_lines
        then block_or_text s (take m.first line)
        else ok (record s { self = record s.self { has_omitted_lines = true } })
  ]

  -- `case ParsingStatus::Normal`
  unfoldable pub normal_line : Parsing → Bytes → Outcome Parsing
  unfolding omit_or_text
  normal_line s line = elim (search_regex highlight_regex line) [
    | none ↦ omit_or_text s line
    | some m ↦
        let e = s.self in
        let lit_up =
          if e.highlight_lines
          then e.highlighted_lines ++ s.line_number ∷ []
          else e.highlighted_lines in
        omit_or_text (record s { self = record e { highlighted_lines = lit_up } })
          (take m.first line)
  ]

  -- One round of the loop.
  unfoldable pub next_line : Parsing → Bytes → Outcome Parsing
  unfolding normal_line comment_line
  next_line s line =
      let s' = record s { file_line_number = s.file_line_number + 1 } in
      if s.self.skip_empty_lines && is_empty line then ok s' else elim s.status [
        | normal ↦ normal_line s' line
        | block_comment ↦ ok (comment_line s' line)
      ]

  -- `while (std::getline(fileStream, line))`
  unfoldable pub parse_lines : Parsing → List Bytes → Outcome Parsing
  unfolding next_line
  parse_lines s [] = ok s
  parse_lines s (line ∷ lines) = do s' ← next_line s line; parse_lines s' lines

-- Behind the loop: an open snippet is an error; the snippet "all" is the whole text.
unfoldable pub finish : Parsing → Extractor × Bool
finish s =
    if ltb 0 (length s.snippets)
    then (s.self, false)
    else let whole : Snippet = record {
      line_spans = (0, length s.self.file_contents) ∷ [];
      name = codes "all";
      excludes = [];
      text_if_excluded = [];
    } in
      (record s.self { snippets = emplace (codes "all") whole s.self.snippets }, true)

-- `parse()`; `files` gives the content of each file that can be opened.
unfoldable pub parse : Boost → (Bytes → Option Bytes) → Extractor → Outcome (Extractor × Bool)
unfolding parse_lines finish getlines
parse boost files e = elim (files e.path) [
  | none ↦ ok (e, false)
  | some content ↦ do s ← parse_lines boost (start_parsing e) (getlines content); ok (finish s)
]
