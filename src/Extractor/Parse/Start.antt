-- ===== src/Extractor/Parse/Start.antt =====
-- extract/cppextractor.cc: the branch of `parse` for the start of a snippet.
use extractor.Base.{
  ℕ, List, [], ◌∷◌, Bytes, Dict, ltb, ◌==◌, if◌then◌else◌, drop, slice, lookup_or, assign, insert,
  bytes_eq, codes, Outcome, ok, fault, undefined, ◌>>=◌, nat_key, bytes_key,
}
use extractor.Boost.{Boost}
use extractor.Regex.{Match, is_found}
use extractor.Extractor.Patterns.{highlight_section_include_regex, highlight_section_exclude_regex}
use extractor.Extractor.Parse.State.{SectionHighlight, included, excluded, Parsing, push_line}

-- `sectionHighlight` at the start of a snippet
unfoldable pub push_section : Bytes → List SectionHighlight → List SectionHighlight
push_section remaining sections =
    if is_found highlight_section_include_regex remaining
    then included ∷ sections
    else if is_found highlight_section_exclude_regex remaining
    then excluded ∷ sections
    else elim sections [ [] ↦ [] | top ∷ rest ↦ top ∷ top ∷ rest ]

-- The maps that the names behind the first write to.
pub record Exclusions : Type 0 where
  pub excludes : Dict Bytes (List Bytes)
  pub exclude_texts : Dict Bytes Bytes

-- `excludes[snippetName].insert(name)`
add_exclude : Bytes → Bytes → Exclusions → Exclusions
add_exclude snippet_name name x =
    let names = insert name (lookup_or snippet_name [] x.excludes) in
    record x { excludes = assign snippet_name names x.excludes }

-- What one further name of the line does: go on, `break`, or read behind the end of the names.
pub data Naming : Type 0 where
  next : Exclusions → Naming
  stop : Exclusions → Naming
  dangling : Naming

-- The text from `it2->begin()` on, of the name behind `:`; there is none behind the last name.
exclude_text_from : Bytes → Bytes → List (ℕ × ℕ) → Exclusions → Naming
exclude_text_from remaining snippet_name [] x = dangling
exclude_text_from remaining snippet_name ((a, b) ∷ names) x =
    stop (record x { exclude_texts = assign snippet_name (drop a remaining) x.exclude_texts })

unfoldable pub exclude_name : Bytes → Bytes → List (ℕ × ℕ) → Exclusions → Bytes → Naming
unfolding add_exclude exclude_text_from
exclude_name remaining snippet_name later x [] = next x
exclude_name remaining snippet_name later x (c ∷ name) =
    if c == b'-'
    then next (add_exclude snippet_name name x)
    else if bytes_eq (c ∷ name) (codes ":")
    then exclude_text_from remaining snippet_name later x
    else next x

-- The loop over the names behind the first.
unfoldable pub exclude_names : Bytes → Bytes → List (ℕ × ℕ) → Exclusions → Outcome Exclusions
unfolding exclude_name
exclude_names remaining snippet_name [] x = ok x
exclude_names remaining snippet_name ((a, b) ∷ later) x =
    elim (exclude_name remaining snippet_name later x (slice a b remaining)) [
      | next x' ↦ exclude_names remaining snippet_name later x'
      | stop x' ↦ ok x'
      | dangling ↦ fault undefined
    ]

scope_symbol : Bytes
scope_symbol = codes "::"

scope_symbol_replacement : Bytes
scope_symbol_replacement = codes "_"

module _ (boost : Boost) where
  -- The name of a snippet, `::` replaced.
  unfoldable pub snippet_name_of : Bytes → Bytes
  unfolding scope_symbol scope_symbol_replacement
  snippet_name_of name =
      if boost.contains name scope_symbol
      then boost.replace_all name scope_symbol scope_symbol_replacement
      else name

  unfoldable pub start_unnamed : Parsing → Bytes → Outcome Parsing
  unfolding push_line
  start_unnamed s line =
      ok (push_line (record s { snippets = (s.line_number, codes "unnamed") ∷ s.snippets }) line)

  unfoldable pub start_named : Parsing → Bytes → Bytes → List (ℕ × ℕ) → Outcome Parsing
  unfolding start_unnamed snippet_name_of exclude_names push_line
  start_named s line remaining [] = start_unnamed s line
  start_named s line remaining ((a, b) ∷ later) =
      if ltb a b
      then (do
        let name = snippet_name_of (slice a b remaining)
        x ←
            exclude_names remaining name later
              (record { excludes = s.excludes; exclude_texts = s.exclude_texts })
        let s' = record s {
          snippets = (s.line_number, name) ∷ s.snippets;
          excludes = x.excludes;
          exclude_texts = x.exclude_texts;
        }
        ok (if s.self.skip_snippet_definitions then s' else push_line s' line))
      else start_unnamed s line

  unfoldable pub start_line : Parsing → Bytes → Match → Outcome Parsing
  unfolding start_named push_section
  start_line s line m =
      let remaining = boost.trim (drop m.second line) in
      let s' = record s { section_highlight = push_section remaining s.section_highlight } in
      start_named s' line remaining (boost.split remaining)
