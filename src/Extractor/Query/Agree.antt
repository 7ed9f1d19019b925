-- ===== src/Extractor/Query/Agree.antt =====
-- The three queries on excluded lines, against what the stored snippets say.
use extractor.Base.{
  ℕ, ◌≤◌, ◌<◌, ◌≡◌, ◌↔◌, ap, refl, sym, ◌∙◌, true, not, some, inl, inr, List, [], ◌∷◌, arith, Bytes,
  Dict, is_empty, lookup, bytes_key, Any, leb, ltb, ◌&&◌, Bool-cases, Option-cases,
}
use extractor.Extractor.{Extractor, Snippet}
use extractor.Extractor.Query.{
  contains_span, contains_line, excluded_by, has_text_by, text_by, is_line_excluded,
  has_exclude_text, exclude_text,
}

-- A line within a span, whose end does not count.
abbrev pub Within : ℕ → ℕ × ℕ → Type 0
Within n (a, b) = (a ≤ n) × (n < b)

contains_span_iff :
    (spans : List (ℕ × ℕ)) (n : ℕ) → (contains_span spans n ≡ true) ↔ Any (Within n) spans
unfolding contains_span
contains_span_iff [] n = ((λ h. cc), λ h. elim h [ ])
contains_span_iff ((a, b) ∷ spans) n =
    let rest = contains_span_iff spans n in
    elim (Bool-cases (leb a n && ltb n b)) [
      | inl hit ↦ rw hit ((λ _. inl (ground arith, ground arith)), λ _. refl)
      | inr miss ↦ rw miss (
        (λ h. inr (rest.0 h)),
        elim [ inl within ↦ absurd (ground arith) | inr later ↦ rest.1 later ],
      )
    ]

-- `containsLine` holds exactly of the lines within one of the spans.
pub contains_line_iff :
    (s : Snippet) (n : ℕ) → (contains_line s n ≡ true) ↔ Any (Within n) s.line_spans
unfolding contains_line
contains_line_iff s n = contains_span_iff s.line_spans n

-- An exclude that names a stored snippet which holds the line.
abbrev pub Excludes : Dict Bytes Snippet → ℕ → Bytes → Type 0
Excludes snippets n name =
    (x : Snippet) × (lookup name snippets ≡ some x) × Any (Within n) x.line_spans

excluded_by_iff :
    (snippets : Dict Bytes Snippet) (names : List Bytes) (n : ℕ)
    → (excluded_by snippets names n ≡ true) ↔ Any (Excludes snippets n) names
unfolding excluded_by
excluded_by_iff snippets [] n = ((λ h. cc), λ h. elim h [ ])
excluded_by_iff snippets (name ∷ names) n =
    let rest = excluded_by_iff snippets names n in
    let all = excluded_by snippets (name ∷ names) n in
    elim (Option-cases (lookup name snippets)) [
      | inl absent ↦
          let step : all ≡ excluded_by snippets names n = rw (absent, excluded_by) in
          (
            (λ h. inr (rest.0 (sym step ∙ h))),
            elim [ inl (x, found, within) ↦ cc (absent, found) | inr later ↦ step ∙ rest.1 later ],
          )
      | inr (x, found) ↦ elim (Bool-cases (contains_line x n)) [
        | inl hit ↦
            let step : all ≡ true = rw (found, excluded_by, hit) in
            ((λ _. inl (x, found, (contains_line_iff x n).0 hit)), λ _. step)
        | inr miss ↦
            let step : all ≡ excluded_by snippets names n = rw (found, excluded_by, miss) in
            (
              (λ h. inr (rest.0 (sym step ∙ h))),
              elim [
                | inl (y, found', within) ↦
                    let same : y ≡ x = cc (found, found') in
                    cc (
                      miss,
                      ap (λ (z : Snippet). contains_line z n) same,
                      (contains_line_iff y n).1 within,
                    )
                | inr later ↦ step ∙ rest.1 later
              ],
            )
      ]
    ]

-- `isLineExcluded` holds exactly where one of the snippet's excludes names a stored snippet that
-- holds the line; an exclude that names no snippet excludes nothing.
pub is_line_excluded_iff :
    (e : Extractor) (s : Snippet) (n : ℕ)
    → (is_line_excluded e s n ≡ true) ↔ Any (Excludes e.snippets n) s.excludes
unfolding is_line_excluded
is_line_excluded_iff e s n = excluded_by_iff e.snippets s.excludes n

queries_agree :
    (snippets : Dict Bytes Snippet) (names : List Bytes) (n : ℕ)
    → (has_text_by snippets names n ≡ not (is_empty (text_by snippets names n)))
      × (has_text_by snippets names n ≡ true → excluded_by snippets names n ≡ true)
unfolding has_text_by text_by excluded_by
queries_agree snippets [] n = (refl, λ h. h)
queries_agree snippets (name ∷ names) n = ground (arith, queries_agree snippets names n)

-- `hasExcludeText` tells whether `excludeText` has a text, and holds of excluded lines only.
pub has_exclude_text_agrees :
    (e : Extractor) (s : Snippet) (n : ℕ)
    → (has_exclude_text e s n ≡ not (is_empty (exclude_text e s n)))
      × (has_exclude_text e s n ≡ true → is_line_excluded e s n ≡ true)
unfolding has_exclude_text exclude_text is_line_excluded
has_exclude_text_agrees e s n = queries_agree e.snippets s.excludes n
