-- ===== src/Extractor/Parse/End.antt =====
-- extract/cppextractor.cc: the branch of `parse` for the end of a snippet.
use extractor.Base.{
  ℕ, List, [], ◌∷◌, ◌++◌, none, some, Bytes, Dict, if◌then◌else◌, lookup, lookup_or, assign,
  emplace, insert_all, nat_key, bytes_key,
}
use extractor.Extractor.{Snippet}
use extractor.Extractor.Parse.State.{SectionHighlight, Parsing, push_line}

-- The excludes that the lines so far name for a snippet.
unfoldable pub excludes_of : Bytes → Parsing → List Bytes
excludes_of name s = lookup_or name [] s.excludes

-- `mSnippets` after the snippet `name`, open since `first`, ends before the current line.
unfoldable pub closed_snippets : Parsing → ℕ → Bytes → Dict Bytes Snippet
unfolding excludes_of
closed_snippets s first name = elim (lookup name s.self.snippets) [
  | some old ↦
      let grown : Snippet = record old {
        line_spans = old.line_spans ++ (first, s.line_number) ∷ [];
        excludes = insert_all (excludes_of old.name s) old.excludes;
      } in
      assign name grown s.self.snippets
  | none ↦
      let fresh : Snippet = record {
        line_spans = (first, s.line_number) ∷ [];
        name = name;
        excludes = insert_all (excludes_of name s) [];
        text_if_excluded = lookup_or name [] s.exclude_texts;
      } in
      emplace name fresh s.self.snippets
]

-- `excludeTexts[name]` is read for a new snippet only, and makes a missing entry.
unfoldable pub closed_texts : Parsing → Bytes → Dict Bytes Bytes
closed_texts s name = elim (lookup name s.self.snippets) [
  | some old ↦ s.exclude_texts
  | none ↦ emplace name [] s.exclude_texts
]

-- The snippet on top of the stack ends.
unfoldable pub close_top : Parsing → ℕ → Bytes → Parsing
unfolding closed_snippets closed_texts
close_top s first name = record s {
  self = record s.self { snippets = closed_snippets s first name };
  exclude_texts = closed_texts s name;
}

unfoldable pub close_snippet : List (ℕ × Bytes) → Parsing → Parsing
unfolding close_top
close_snippet [] s = s
close_snippet ((first, name) ∷ below) s =
    let s' = close_top s first name in record s' { snippets = below }

unfoldable pub pop : List SectionHighlight → List SectionHighlight
pop [] = []
pop (top ∷ below) = below

unfoldable pub end_line : Parsing → Bytes → Parsing
unfolding close_snippet pop push_line
end_line s line =
    let s' = close_snippet s.snippets (record s { section_highlight = pop s.section_highlight }) in
    if s'.self.skip_snippet_definitions then s' else push_line s' line
