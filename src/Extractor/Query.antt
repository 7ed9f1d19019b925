-- ===== src/Extractor/Query.antt =====
-- extract/cppextractor.cc: `containsLine`, `isLineExcluded`, `hasExcludeText`, `excludeText`.
pub mod Agree
use extractor.Base.{
  ℕ, Bool, true, false, not, ◌&&◌, List, [], ◌∷◌, none, some, Bytes, Dict, leb, ltb, if◌then◌else◌,
  is_empty, lookup, bytes_key,
}
use extractor.Extractor.{Snippet, Extractor}

contains_span : List (ℕ × ℕ) → ℕ → Bool
contains_span [] n = false
contains_span ((a, b) ∷ spans) n = if leb a n && ltb n b then true else contains_span spans n

-- `Snippet::containsLine`
unfoldable pub contains_line : Snippet → ℕ → Bool
unfolding contains_span
contains_line s n = contains_span s.line_spans n

-- The loop of `isLineExcluded` over `snippet.mExcludes`
unfoldable pub excluded_by : Dict Bytes Snippet → List Bytes → ℕ → Bool
unfolding contains_line
excluded_by snippets [] n = false
excluded_by snippets (name ∷ names) n =
    let rest = excluded_by snippets names n in
    elim (lookup name snippets) [ some s ↦ if contains_line s n then true else rest | none ↦ rest ]

-- `isLineExcluded(snippet, lineNumber)`
unfoldable pub is_line_excluded : Extractor → Snippet → ℕ → Bool
unfolding excluded_by
is_line_excluded e s n = excluded_by e.snippets s.excludes n

-- The loop of `hasExcludeText`
has_text_by : Dict Bytes Snippet → List Bytes → ℕ → Bool
unfolding contains_line
has_text_by snippets [] n = false
has_text_by snippets (name ∷ names) n =
    let rest = has_text_by snippets names n in
    elim (lookup name snippets) [
      | some s ↦ if contains_line s n then not (is_empty s.text_if_excluded) else rest
      | none ↦ rest
    ]

-- `hasExcludeText(snippet, lineNumber)`
unfoldable pub has_exclude_text : Extractor → Snippet → ℕ → Bool
unfolding has_text_by
has_exclude_text e s n = has_text_by e.snippets s.excludes n

-- The loop of `excludeText`
text_by : Dict Bytes Snippet → List Bytes → ℕ → Bytes
unfolding contains_line
text_by snippets [] n = []
text_by snippets (name ∷ names) n =
    let rest = text_by snippets names n in
    elim (lookup name snippets) [
      | some s ↦ if contains_line s n then s.text_if_excluded else rest
      | none ↦ rest
    ]

-- `excludeText(snippet, lineNumber)`
unfoldable pub exclude_text : Extractor → Snippet → ℕ → Bytes
unfolding text_by
exclude_text e s n = text_by e.snippets s.excludes n
