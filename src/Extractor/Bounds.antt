-- ===== src/Extractor/Bounds.antt =====
-- extract/cppextractor.cc: when what `parse` stores lies within what it stores, as predicates, and
-- the invariant of its loop.
pub mod Branches
pub mod Whole
use extractor.Base.{
  ℕ, zero, suc, ◌+◌, ◌≤◌, ◌<◌, ◌≡◌, refl, Bool, true, false, Option, none, some, inl, inr, List, [],
  ◌∷◌, ◌++◌, arith, Bytes, Dict, length, All, All-imp, All-append, get_elem?, get_elem?-append_some,
  get_elem?-append_last, length-append, bytes_key, nat_key, lookup, assign, assign-All, emplace,
  Holds, Holds-bind, Holds-ok, Holds-if, ◌>>=◌, emplace-All, lookup-All, Outcome, ok, fault,
  Bool-cases, codes, slice, ltb, take, ◌&&◌, is_empty, if◌then◌else◌, ◌-◌, drop, Option-cases,
}
use extractor.Boost.{Boost}
use extractor.Extractor.{Extractor, Snippet, CallOut}
use extractor.Extractor.Parse.{
  Parsing, SectionHighlight, push_line, push_section, call_out_line, stoi, start_line,
  start_unnamed, start_named, snippet_name_of, end_line, dispatch, block_or_text, omit_or_text,
  normal_line, comment_line, next_line, parse_lines, finish, parse, ParsingStatus, normal,
  block_comment, start_parsing, getlines, closed_snippets, close_snippet, pop, exclude_names,
}
use extractor.Extractor.Patterns.{
  start_block_comment, end_block_comment, call_out_regex, snippet_start_regex, snippet_end_regex,
  omit_line_regex, highlight_regex, highlight_section_include_regex,
  highlight_section_exclude_regex,
}
use extractor.Regex.{Match, search_regex, is_found, group}
use extractor.Regex.Bounds.{InLine, search_regex-InLine, mark_at-le}

-- A callout at line `n` of `lines`, with both columns within that line.
abbrev pub CallOutFits : List Bytes → ℕ × CallOut → Type 0
CallOutFits lines (n, co) =
    (line : Bytes) × (get_elem? lines n ≡ some line)
    × (co.column ≤ length line)
    × (co.comment_column ≤ length line)
    × (co.line_number ≡ n)

abbrev pub SpanFits : ℕ → ℕ × ℕ → Type 0
SpanFits n (a, b) = (a ≤ b) × (b ≤ n)

-- A snippet under its own name, with all spans within `n` lines.
abbrev pub SnippetFits : ℕ → Bytes × Snippet → Type 0
SnippetFits n (name, s) = (s.name ≡ name) × All (SpanFits n) s.line_spans

pub record IsStored (e : Extractor) : Type 0 where
  pub called : All (CallOutFits e.file_contents) e.callouts
  pub spanned : All (SnippetFits (length e.file_contents)) e.snippets

abbrev pub OpenFits : ℕ → ℕ × Bytes → Type 0
OpenFits n (first, name) = first ≤ n

-- The invariant of the loop, over the parts of the state that it is about.
pub record IsSoundAt (n : ℕ) (lines : List Bytes) (callouts : Dict ℕ CallOut)
    (snippets : Dict Bytes Snippet) (stack : List (ℕ × Bytes)) (sections : List SectionHighlight)
    : Type 0 where
  pub counted : n ≡ length lines
  pub called : All (CallOutFits lines) callouts
  pub spanned : All (SnippetFits (length lines)) snippets
  pub opened : All (OpenFits n) stack
  pub nested : length sections ≤ length stack

abbrev pub IsSound : Parsing → Type 0
IsSound s =
    IsSoundAt s.line_number s.self.file_contents s.self.callouts s.self.snippets s.snippets
      s.section_highlight

pub CallOutFits-append :
    (lines : List Bytes) (line : Bytes) (x : ℕ × CallOut)
    → CallOutFits lines x
    → CallOutFits (lines ++ line ∷ []) x
CallOutFits-append lines line (n, co) (l, at, c, d, e) =
    (l, get_elem?-append_some lines _ n at, c, d, e)

pub SnippetFits-mono : (m n : ℕ) (x : Bytes × Snippet) → m ≤ n → SnippetFits m x → SnippetFits n x
SnippetFits-mono m n (name, s) h (named, spans) =
    (named, All-imp (SpanFits m) (SpanFits n) (λ x f. (f.0, omega arith)) s.line_spans spans)

module _ {n : ℕ} {lines : List Bytes} {callouts : Dict ℕ CallOut} {snippets : Dict Bytes Snippet}
    {stack : List (ℕ × Bytes)} {sections : List SectionHighlight}
    (h : IsSoundAt n lines callouts snippets stack sections) where
  -- One more line.
  pub append-IsSoundAt :
      (line : Bytes) → IsSoundAt (n + 1) (lines ++ line ∷ []) callouts snippets stack sections
  append-IsSoundAt line =
      let grown : length (lines ++ line ∷ []) ≡ length lines + 1 =
        omega (arith, length-append lines (line ∷ [])) in
      let below : length lines ≤ length (lines ++ line ∷ []) = omega arith in
      let started : n ≤ n + 1 = omega arith in
      record {
        counted = omega (arith, h.counted);
        called = All-imp _ _ (CallOutFits-append lines line) callouts h.called;
        spanned = All-imp _ _ (λ x. SnippetFits-mono _ _ x below) snippets h.spanned;
        opened = All-imp _ _ (λ x f. omega arith) stack h.opened;
        nested = h.nested;
      }

  -- One more line, with a callout on it.
  pub append_called-IsSoundAt :
      (line : Bytes) (co : CallOut)
      → co.column ≤ length line
      → co.comment_column ≤ length line
      → co.line_number ≡ n
      → IsSoundAt (n + 1) (lines ++ line ∷ []) (assign n co callouts) snippets stack sections
  append_called-IsSoundAt line co c d e =
      let g = append-IsSoundAt line in
      record {
        counted = g.counted;
        called =
            assign-All _ n co callouts (line, get_elem?-append_last lines line n h.counted, c, d, e)
              g.called;
        spanned = g.spanned;
        opened = g.opened;
        nested = g.nested;
      }

  -- A snippet is opened; the highlighting of its section may be noted.
  pub open-IsSoundAt :
      (name : Bytes) (sections' : List SectionHighlight)
      → length sections' ≤ length sections + 1
      → IsSoundAt n lines callouts snippets ((n, name) ∷ stack) sections'
  open-IsSoundAt name sections' k = record {
    counted = h.counted;
    called = h.called;
    spanned = h.spanned;
    opened = (omega arith, h.opened);
    nested = omega (arith, h.nested);
  }
