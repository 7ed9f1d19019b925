-- ===== src/Generator/Total.antt =====
-- extract/asciidocsnippetfilegenerator.cc: the reads of `generate` in what the extractor stored.
use extractor.Base.{
  ℕ, zero, suc, ◌+◌, ◌-◌, ◌≤◌, ◌<◌, ◌≡◌, ◌≢◌, Bool, true, false, not, ◌&&◌, ap, Option, none, some,
  inl, inr, List, [], ◌∷◌, arith, Bytes, length, All, All-append, get_elem?, get_elem?-some,
  length-append, lookup, lookup-All, nat_key, bytes_key, ok, Returns, Returns-bind, Returns-ok,
  Returns-if, Bool-cases, Option-cases,
}
use extractor.Extractor.{Extractor, Snippet, CallOut}
use extractor.Extractor.Query.{is_line_excluded}
use extractor.Extractor.Bounds.{CallOutFits, SpanFits, IsStored}
use extractor.Generator.{Generator}
use extractor.Boost.{Boost}
use extractor.Extractor.Parse.{parse}
use extractor.Extractor.Induction.{IsFresh}
use extractor.Extractor.Bounds.Whole.{parse-IsStored}
use extractor.Generator.Text.{callout_list, snippet_text}
use extractor.Generator.Body.{
  Body, start_body, replace_from, callout_text, mark_callout, shown_line, excluded_line, body_line,
  body_lines, delimit, body_spans, body,
}

-- What the loops keep: the callouts met are there, and as many as were numbered.
pub record IsCounted (e : Extractor) (b : Body) : Type 0 where
  pub numbered : b.co_number ≡ length b.callout_line_numbers + 1
  pub called : All (λ n. lookup n e.callouts ≢ none) b.callout_line_numbers

module _ (g : Generator) (stored : IsStored g.extractor) where
  replace_from-Returns :
      (pos : ℕ) (text line : Bytes)
      → pos ≤ length line
      → Returns (λ _. Unit {0}) (replace_from pos text line)
  unfolding replace_from
  replace_from-Returns pos text line h = ground arith

  callout_text-Returns :
      (n : ℕ) (co : CallOut) (number : ℕ) (line : Bytes)
      → get_elem? g.extractor.file_contents n ≡ some line
      → CallOutFits g.extractor.file_contents (n, co)
      → Returns (λ _. Unit {0}) (callout_text g co number line)
  unfolding callout_text
  callout_text-Returns n co number line at (l, at', column, comment, same) =
      let same_line : l ≡ line = cc in
      let same_length : length l ≡ length line = ap length same_line in
      Returns-if _ g.skip_callouts _ _
        (replace_from-Returns co.comment_column [] line (omega arith))
        (replace_from-Returns co.column _ line (omega arith))

  mark_callout-Returns :
      (n : ℕ) (b : Body) (line : Bytes)
      → get_elem? g.extractor.file_contents n ≡ some line
      → IsCounted g.extractor b
      → Returns (λ r. IsCounted g.extractor r.0) (mark_callout g n b line)
  unfolding mark_callout
  mark_callout-Returns n b line at h = elim (Option-cases (lookup n g.extractor.callouts)) [
    | inl plain ↦ rw (plain, mark_callout) h
    | inr (co, called) ↦
        rw (called, mark_callout)
          (Returns-bind _ _ (callout_text g co b.co_number line) _
            (callout_text-Returns n co b.co_number line at
              (lookup-All _ n g.extractor.callouts stored.called called))
            λ shown _. record {
              numbered = omega (arith, h.numbered, length-append b.callout_line_numbers (n ∷ []));
              called =
                  All-append _ b.callout_line_numbers (n ∷ []) h.called
                    ((λ absent. cc (absent, called)), tt);
            })
  ]

  shown_line-Returns :
      (n : ℕ) (b : Body)
      → n < length g.extractor.file_contents
      → IsCounted g.extractor b
      → Returns (IsCounted g.extractor) (shown_line g n b)
  unfolding shown_line
  shown_line-Returns n b fits h =
      let (line, at) = get_elem?-some g.extractor.file_contents n fits in
      rw (at, shown_line)
        (Returns-bind (λ r. IsCounted g.extractor r.0) _ (mark_callout g n _ line) _
          (mark_callout-Returns n _ line at (record { numbered = h.numbered; called = h.called }))
          λ r k. record { numbered = k.numbered; called = k.called })

  excluded_line-IsCounted :
      (s : Snippet) (n : ℕ) (b : Body)
      → IsCounted g.extractor b
      → IsCounted g.extractor (excluded_line g s n b)
  unfolding excluded_line
  excluded_line-IsCounted s n b h = elim (Bool-cases b.print_exclude_marker_for_line) [
    | inl first ↦ rw first (record { numbered = h.numbered; called = h.called })
    | inr again ↦ rw again (record { numbered = h.numbered; called = h.called })
  ]

  body_line-Returns :
      (s : Snippet) (n : ℕ) (b : Body)
      → n < length g.extractor.file_contents
      → IsCounted g.extractor b
      → Returns (IsCounted g.extractor) (body_line g s n b)
  unfolding body_line
  body_line-Returns s n b fits h =
      Returns-bind (IsCounted g.extractor) _ _ _
        (Returns-if _ (not (is_line_excluded g.extractor s n)) _ (ok _)
          (shown_line-Returns n b fits h) (excluded_line-IsCounted s n b h))
        λ c k. record { numbered = k.numbered; called = k.called }

  body_lines-Returns :
      (s : Snippet) (n rounds : ℕ) (b : Body)
      → n + rounds ≤ length g.extractor.file_contents
      → IsCounted g.extractor b
      → Returns (IsCounted g.extractor) (body_lines g s n rounds b)
  unfolding body_lines
  body_lines-Returns s n zero b fits h = h
  body_lines-Returns s n (suc rounds) b fits h =
      Returns-bind (IsCounted g.extractor) _ (body_line g s n b) _
        (body_line-Returns s n b (omega arith) h)
        λ c. body_lines-Returns s (suc n) rounds c (omega arith)

  delimit-IsCounted :
      (first : Bool) (b : Body)
      → IsCounted g.extractor b
      → IsCounted g.extractor (record (delimit g first b) { print_exclude_marker_for_line = true })
  unfolding delimit
  delimit-IsCounted first b h = elim (Bool-cases (not first && g.print_multi_snippet_delimiter)) [
    | inl delimited ↦ rw delimited (record { numbered = h.numbered; called = h.called })
    | inr plain ↦ rw plain (record { numbered = h.numbered; called = h.called })
  ]

  body_spans-Returns :
      (s : Snippet) (first : Bool) (spans : List (ℕ × ℕ)) (b : Body)
      → All (SpanFits (length g.extractor.file_contents)) spans
      → IsCounted g.extractor b
      → Returns (IsCounted g.extractor) (body_spans g s first spans b)
  unfolding body_spans
  body_spans-Returns s first [] b fits h = h
  body_spans-Returns s first ((from, to) ∷ spans) b (fit, fits) h =
      Returns-bind (IsCounted g.extractor) _ (body_lines g s from (to - from) _) _
        (body_lines-Returns s from (to - from) _ (omega arith) (delimit-IsCounted first b h))
        λ c. body_spans-Returns s false spans c fits

  -- The loops return for every snippet whose spans fit.
  pub body-Returns :
      (s : Snippet)
      → All (SpanFits (length g.extractor.file_contents)) s.line_spans
      → Returns (IsCounted g.extractor) (body g s)
  unfolding body
  body-Returns s fits =
      body_spans-Returns s true s.line_spans start_body fits
        (record { numbered = omega arith; called = tt })

callout_list-Returns :
    (e : Extractor) (number : ℕ) (ns : List ℕ)
    → All (λ n. lookup n e.callouts ≢ none) ns
    → Returns (λ _. Unit {0}) (callout_list e number ns)
unfolding callout_list
callout_list-Returns e number [] h = tt
callout_list-Returns e number (n ∷ ns) h = elim (Option-cases (lookup n e.callouts)) [
  | inl absent ↦ absurd (h.0 absent)
  | inr (co, called) ↦
      rw (called, callout_list)
        (Returns-bind _ _ (callout_list e (number + 1) ns) _
          (callout_list-Returns e (number + 1) ns h.1) λ rest _. tt)
]

module _ (boost : Boost) (astyle_main : Bytes → Bytes → Bytes) where
  pub snippet_text-Returns :
      (g : Generator) (file : Bytes) (s : Snippet)
      → IsStored g.extractor
      → All (SpanFits (length g.extractor.file_contents)) s.line_spans
      → Returns (λ _. Unit {0}) (snippet_text boost astyle_main g file s)
  unfolding snippet_text
  snippet_text-Returns g file s stored fits =
      Returns-bind (IsCounted g.extractor) _ (body g s) _ (body-Returns g stored s fits) λ b h.
        Returns-bind (λ _. Unit {0}) _ _ _
          (Returns-if _ g.skip_callouts (ok []) _ tt
            (callout_list-Returns g.extractor 1 b.callout_line_numbers h.called))
          λ callouts _. tt

  -- After a fresh extractor has parsed any file, the file of each of its snippets can be written,
  -- whatever the settings of the generator: no line, column or callout is read that is not there.
  pub snippet_text_total :
      (files : Bytes → Option Bytes) (e : Extractor) {r : Extractor × Bool}
      → IsFresh e
      → parse boost files e ≡ ok r
      → (g : Generator) → g.extractor ≡ r.0
      → (file name : Bytes) {s : Snippet} → lookup name r.0.snippets ≡ some s
      → (text : Bytes) × (snippet_text boost astyle_main g file s ≡ ok text)
  snippet_text_total files e {r = r} fresh parsed g same file name {s = s} found =
      let stored : IsStored r.0 = parse-IsStored boost files e fresh parsed in
      let fits = lookup-All _ name r.0.snippets stored.spanned found in
      let (text, e, _) =
        Returns-ok _ _ (snippet_text-Returns g file s (rw same stored) (rw same fits.1)) in
      (text, e)
