-- ===== src/Generator/Lines.antt =====
-- extract/asciidocsnippetfilegenerator.cc: the code lines of a snippet, against the stored lines of
-- its spans.
use native.Mathlib.Numerals.{add-one}
use mathlib.Core.List.{append_assoc, append-nil}
use extractor.Base.{
  ℕ, zero, suc, ◌+◌, ◌-◌, ◌≤◌, ◌<◌, ◌≡◌, ◌∙◌, refl, sym, ap, Bool, true, false, not, ◌&&◌, none,
  some, List, [], ◌∷◌, ◌++◌, arith, Bytes, length, take, drop, drop-get_elem?, All, get_elem?,
  get_elem?-some, lookup, nat_key, any_of, ◌==◌, ok, if◌then◌else◌,
}
use extractor.Extractor.{Snippet}
use extractor.Extractor.Query.{is_line_excluded}
use extractor.Extractor.Bounds.{SpanFits}
use extractor.Generator.{Generator}
use extractor.Generator.Body.{
  Body, start_body, mark_callout, shown_line, exclude_mark, excluded_line, body_line, body_lines,
  delimit, body_spans, body,
}

-- Every line of a stretch of `rounds` lines from line `n` on is excluded.
abbrev pub AllExcluded : Generator → Snippet → ℕ → ℕ → Type 0
AllExcluded g s n rounds =
    (k : ℕ) → n ≤ k → k < n + rounds → is_line_excluded g.extractor s k ≡ true

module _ (g : Generator) (s : Snippet) where
  -- The body after excluded lines that begin at line `n`.
  abbrev pub after_excluded : ℕ → ℕ → Body → Body
  after_excluded n rounds b = record b {
    code_lines =
        if b.print_exclude_marker_for_line && g.print_exclude_marker
        then b.code_lines ++ exclude_mark g s n
        else b.code_lines;
    print_exclude_marker_for_line = false;
    code_line_number = b.code_line_number + rounds;
  }

  body_line_excluded :
      (n : ℕ) (b : Body)
      → is_line_excluded g.extractor s n ≡ true
      → body_line g s n b ≡ ok (after_excluded n 1 b)
  unfolding body_line excluded_line
  body_line_excluded n b h = ground arith

  -- In a run of excluded lines the marker is written once, at its first line, if markers are
  -- printed and the run does not go on from one that has its marker; every line is counted.
  pub body_lines_excluded :
      (n rounds : ℕ) (b : Body)
      → AllExcluded g s n (suc rounds)
      → body_lines g s n (suc rounds) b ≡ ok (after_excluded n (suc rounds) b)
  unfolding body_lines
  body_lines_excluded n zero b h = rw (body_line_excluded n b (h n (omega arith) (omega arith)))
  body_lines_excluded n (suc rounds) b h =
      rw (body_line_excluded n b (h n (omega arith) (omega arith))) (
        body_lines_excluded (suc n) rounds (after_excluded n 1 b)
          (λ k above below. h k (omega arith) (omega arith))
        ∙ ground arith)

-- Lines, each with the end of line.
abbrev pub unlines : List Bytes → Bytes
unlines [] = []
unlines (line ∷ lines) = line ++ (10 ∷ unlines lines)

-- The numbers of the highlighted lines of a stretch, the first line of which has number `c`.
pub highlighted_in : List ℕ → ℕ → ℕ → ℕ → List ℕ
highlighted_in marked n zero c = []
highlighted_in marked n (suc rounds) c =
    let rest = highlighted_in marked (suc n) rounds (suc c) in
    if any_of (λ m. m == n) marked then c ∷ rest else rest

-- No callout stands on a stretch of lines.
abbrev pub NoCallouts : Generator → ℕ → ℕ → Type 0
NoCallouts g n rounds = (k : ℕ) → n ≤ k → k < n + rounds → lookup k g.extractor.callouts ≡ none

module _ (g : Generator) (s : Snippet) (nothing_excluded : s.excludes ≡ []) where
  -- The body after lines that are shown as they are stored.
  abbrev pub after_shown : ℕ → ℕ → Body → Body
  after_shown n rounds b = record b {
    code_lines = b.code_lines ++ unlines (take rounds (drop n g.extractor.file_contents));
    highlighted_snippet_lines =
        b.highlighted_snippet_lines
        ++ highlighted_in g.extractor.highlighted_lines n rounds b.code_line_number;
    code_line_number = b.code_line_number + rounds;
  }

  abbrev with_line : ℕ → Body → Bytes → Body
  with_line n b line = record b {
    code_lines = b.code_lines ++ (line ++ 10 ∷ []);
    highlighted_snippet_lines =
        b.highlighted_snippet_lines
        ++ (if any_of (λ m. m == n) g.extractor.highlighted_lines
            then b.code_line_number ∷ []
            else []);
    code_line_number = b.code_line_number + 1;
  }

  not_excluded : (n : ℕ) → is_line_excluded g.extractor s n ≡ false
  unfolding is_line_excluded
  not_excluded n = rw nothing_excluded

  body_line_shown :
      (n : ℕ) (b : Body) (line : Bytes)
      → get_elem? g.extractor.file_contents n ≡ some line
      → lookup n g.extractor.callouts ≡ none
      → b.print_exclude_marker_for_line ≡ true
      → body_line g s n b ≡ ok (with_line n b line)
  unfolding body_line shown_line mark_callout
  body_line_shown n b line at plain flag =
      ground (arith, not_excluded n, append-nil b.highlighted_snippet_lines)

  add_line :
      (out line rest : Bytes) → (out ++ (line ++ 10 ∷ [])) ++ rest ≡ out ++ (line ++ 10 ∷ rest)
  add_line out line rest = simp append_assoc

  add_number :
      (t : Bool) (out rest : List ℕ) (c : ℕ)
      → (out ++ (if t then c ∷ [] else [])) ++ rest ≡ out ++ (if t then c ∷ rest else rest)
  add_number true out rest c = append_assoc out (c ∷ []) rest
  add_number false out rest c = rw append-nil

  after_shown-suc :
      (n rounds : ℕ) (b : Body) (line : Bytes)
      → get_elem? g.extractor.file_contents n ≡ some line
      → after_shown (suc n) rounds (with_line n b line) ≡ after_shown n (suc rounds) b
  unfolding highlighted_in
  after_shown-suc n rounds b line at =
      let lines = g.extractor.file_contents in
      let code =
        add_line b.code_lines line (unlines (take rounds (drop (suc n) lines)))
        ∙ ap (λ (ls : List Bytes). b.code_lines ++ unlines (take (suc rounds) ls))
            (sym (drop-get_elem? lines n at)) in
      let marked = g.extractor.highlighted_lines in
      let rest = λ (c : ℕ). highlighted_in marked (suc n) rounds c in
      let old = b.highlighted_snippet_lines in
      let c = b.code_line_number in
      let here = any_of (λ m. m == n) marked in
      let lit : (old ++ (if here then c ∷ [] else [])) ++ rest (c + 1)
          ≡ old ++ (if here then c ∷ rest (suc c) else rest (suc c)) =
        rw (add-one c) (add_number here old (rest (suc c)) c) in
      let count : b.code_line_number + 1 + rounds ≡ b.code_line_number + suc rounds = omega arith in
      λ i. record b {
        code_lines = code i;
        highlighted_snippet_lines = lit i;
        code_line_number = count i;
      }

  body_lines_shown :
      (n rounds : ℕ) (b : Body)
      → n + rounds ≤ length g.extractor.file_contents
      → NoCallouts g n rounds
      → b.print_exclude_marker_for_line ≡ true
      → body_lines g s n rounds b ≡ ok (after_shown n rounds b)
  unfolding body_lines highlighted_in
  body_lines_shown n zero b fits plain flag =
      ground (arith, append-nil b.code_lines, append-nil b.highlighted_snippet_lines)
  body_lines_shown n (suc rounds) b fits plain flag =
      let (line, at) = get_elem?-some g.extractor.file_contents n (omega arith) in
      let here = body_line_shown n b line at (plain n (omega arith) (omega arith)) flag in
      rw here (
        body_lines_shown (suc n) rounds (with_line n b line) (omega arith)
          (λ k above below. plain k (omega arith) (omega arith)) flag
        ∙ ap ok (after_shown-suc n rounds b line at))

  -- The code lines of spans: the stored lines of each, the delimiter before all but the first.
  abbrev pub spans_text : Bool → List (ℕ × ℕ) → Bytes
  spans_text first [] = []
  spans_text first ((from, to) ∷ spans) =
      (if not first && g.print_multi_snippet_delimiter then g.multi_snippet_delimiter else [])
      ++ (unlines (take (to - from) (drop from g.extractor.file_contents))
          ++ spans_text false spans)

  delimit_code :
      (first : Bool) (b : Body)
      → ((delimit g first b).code_lines
          ≡ b.code_lines
            ++ (if not first && g.print_multi_snippet_delimiter
                then g.multi_snippet_delimiter
                else []))
        × ((delimit g first b).callout_line_numbers ≡ b.callout_line_numbers)
  unfolding delimit
  delimit_code first b = ground (arith, append-nil b.code_lines)

  body_spans_shown :
      (first : Bool) (spans : List (ℕ × ℕ)) (b : Body)
      → All (SpanFits (length g.extractor.file_contents)) spans
      → All (λ x. NoCallouts g x.0 (x.1 - x.0)) spans
      → (r : Body) × (body_spans g s first spans b ≡ ok r)
        × (r.code_lines ≡ b.code_lines ++ spans_text first spans)
        × (r.callout_line_numbers ≡ b.callout_line_numbers)
  unfolding body_spans
  body_spans_shown first [] b fits plain = (b, refl, sym (append-nil b.code_lines), refl)
  body_spans_shown first ((from, to) ∷ spans) b (fit, fits) (plain, plains) =
      let b' = record (delimit g first b) { print_exclude_marker_for_line = true } in
      let here = body_lines_shown from (to - from) b' (omega arith) plain refl in
      let (r, later, code, called) =
        body_spans_shown false spans (after_shown from (to - from) b') fits plains in
      let (delimited, same) = delimit_code first b in
      let more = unlines (take (to - from) (drop from g.extractor.file_contents)) in
      let joined =
        append_assoc ((delimit g first b).code_lines) more (spans_text false spans)
        ∙ ap (λ (front : Bytes). front ++ (more ++ spans_text false spans)) delimited
        ∙ append_assoc b.code_lines _ (more ++ spans_text false spans) in
      (r, rw here later, code ∙ joined, called ∙ same)

  -- A snippet without excludes and without callouts shows the stored lines of its spans as they
  -- are, each with an end of line, and the delimiter, where it is printed, before all but the
  -- first span; the list of callouts is empty.
  pub body_shown :
      All (SpanFits (length g.extractor.file_contents)) s.line_spans
      → All (λ x. NoCallouts g x.0 (x.1 - x.0)) s.line_spans
      → (r : Body) × (body g s ≡ ok r)
        × (r.code_lines ≡ spans_text true s.line_spans)
        × (r.callout_line_numbers ≡ [])
  unfolding body
  body_shown fits plain = body_spans_shown true s.line_spans start_body fits plain
