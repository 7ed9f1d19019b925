-- ===== src/Extractor/Nesting.antt =====
-- extract/cppextractor.cc: source text whose snippets nest, as a tree, and what is to be stored of
-- it.
pub mod Steps
pub mod Whole
pub mod Listed
use extractor.Base.{
  ℕ, ◌+◌, ◌<◌, ◌≡◌, Bool, true, false, Option, none, some, List, [], ◌∷◌, ◌++◌, Bytes, Dict, length,
  is_empty, drop, slice, lookup, assign, emplace, bytes_key, ltb,
}
use extractor.Boost.{Boost}
use extractor.Regex.{Match, search_regex, is_found}
use extractor.Extractor.{Snippet}
use extractor.Extractor.Patterns.{
  start_block_comment, call_out_regex, snippet_start_regex, snippet_end_regex, omit_line_regex,
  highlight_regex, highlight_section_include_regex, highlight_section_exclude_regex,
}
use extractor.Extractor.Parse.{snippet_name_of}

-- Lines of text, and snippets with the line of their start, their name, what stands inside, and the
-- line of their end.
pub data Source : Type 0 where
  over : Source
  text : Bytes → Source → Source
  snippet : Bytes → Bytes → Source → Bytes → Source → Source

-- The lines of the file
unfoldable pub lines_of : Source → List Bytes
lines_of Source.over = []
lines_of (Source.text line rest) = line ∷ lines_of rest
lines_of (Source.snippet start name inner stop rest) =
    start ∷ (lines_of inner ++ stop ∷ lines_of rest)

-- The lines without those that start or end a snippet
unfoldable pub text_of : Source → List Bytes
text_of Source.over = []
text_of (Source.text line rest) = line ∷ text_of rest
text_of (Source.snippet start name inner stop rest) = text_of inner ++ text_of rest

-- The snippets in the order of their ends, each with its first line and the line behind its last,
-- where `n` lines of text stand in front.
unfoldable pub spans_of : ℕ → Source → List (Bytes × ℕ × ℕ)
unfolding text_of
spans_of n Source.over = []
spans_of n (Source.text line rest) = spans_of (n + 1) rest
spans_of n (Source.snippet start name inner stop rest) =
    let m = n + length (text_of inner) in spans_of n inner ++ (name, n, m) ∷ spans_of m rest

-- A span joins the snippet of its name, or makes it.
unfoldable pub add_span : Bytes × ℕ × ℕ → Dict Bytes Snippet → Dict Bytes Snippet
add_span (name, first, second) d = elim (lookup name d) [
  | some old ↦ assign name (record old { line_spans = old.line_spans ++ (first, second) ∷ [] }) d
  | none ↦
      emplace name
        (record {
          line_spans = (first, second) ∷ [];
          name = name;
          excludes = [];
          text_if_excluded = [];
        })
        d
]

unfoldable pub add_spans : List (Bytes × ℕ × ℕ) → Dict Bytes Snippet → Dict Bytes Snippet
unfolding add_span
add_spans [] d = d
add_spans (span ∷ spans) d = add_spans spans (add_span span d)

-- A line of text that no pattern finds anything in
pub record IsText (lua : Bool) (line : Bytes) : Type 0 where
  pub some_char : is_empty line ≡ false
  pub no_highlight : search_regex highlight_regex line ≡ none
  pub no_omit : search_regex omit_line_regex line ≡ none
  pub no_block : is_found (start_block_comment lua) line ≡ false
  pub no_call_out : search_regex (call_out_regex lua) line ≡ none
  pub no_start : search_regex (snippet_start_regex lua) line ≡ none
  pub no_end : is_found (snippet_end_regex lua) line ≡ false

-- A line that ends a snippet
pub record IsEnd (lua : Bool) (line : Bytes) : Type 0 where
  pub some_char : is_empty line ≡ false
  pub no_highlight : search_regex highlight_regex line ≡ none
  pub no_omit : search_regex omit_line_regex line ≡ none
  pub no_block : is_found (start_block_comment lua) line ≡ false
  pub no_call_out : search_regex (call_out_regex lua) line ≡ none
  pub no_start : search_regex (snippet_start_regex lua) line ≡ none
  pub ends : is_found (snippet_end_regex lua) line ≡ true

-- A line that starts a snippet and gives its name, but no excludes and no mark of a section; the
-- name stands at `a` to `b` behind the match.
pub record IsStart (boost : Boost) (lua : Bool) (line name : Bytes) : Type 0 where
  pub some_char : is_empty line ≡ false
  pub no_highlight : search_regex highlight_regex line ≡ none
  pub no_omit : search_regex omit_line_regex line ≡ none
  pub no_block : is_found (start_block_comment lua) line ≡ false
  pub no_call_out : search_regex (call_out_regex lua) line ≡ none
  pub found_at : Match
  pub starts : search_regex (snippet_start_regex lua) line ≡ some found_at
  pub from : ℕ
  pub to : ℕ
  pub some_name : ltb from to ≡ true
  pub names : boost.split (boost.trim (drop found_at.second line)) ≡ (from, to) ∷ []
  pub named : snippet_name_of boost (slice from to (boost.trim (drop found_at.second line))) ≡ name
  pub no_include :
      is_found highlight_section_include_regex (boost.trim (drop found_at.second line)) ≡ false
  pub no_exclude :
      is_found highlight_section_exclude_regex (boost.trim (drop found_at.second line)) ≡ false

abbrev pub IsNested : Boost → Bool → Source → Type 0
IsNested boost lua Source.over = Unit
IsNested boost lua (Source.text line rest) = IsText lua line × IsNested boost lua rest
IsNested boost lua (Source.snippet start name inner stop rest) =
    IsStart boost lua start name
    × IsNested boost lua inner
    × IsEnd lua stop
    × IsNested boost lua rest
