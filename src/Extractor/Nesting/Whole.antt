-- ===== src/Extractor/Nesting/Whole.antt =====
-- extract/cppextractor.cc: `parse` on a source whose snippets nest.
use extractor.Base.{
  ℕ, ◌+◌, ◌≡◌, refl, ap, ◌∙◌, Bool, List, [], ◌∷◌, ◌++◌, arith, Bytes, Dict, length, length-append,
  append_assoc, append-nil, ok, fault, ◌>>=◌, Returns, Returns-bind, Returns-imp, codes, emplace,
  bytes_key,
}
use extractor.Boost.{Boost}
use extractor.Extractor.{Extractor, Snippet}
use extractor.Extractor.Parse.{Parsing, next_line, parse_lines}
use extractor.Extractor.Nesting.{Source, lines_of, text_of, spans_of, add_span, add_spans, IsNested}
use extractor.Extractor.Nesting.Steps.{
  IsCalm, with_line, with_open, with_closed, next_line_text, next_line_start, next_line_end,
  closed_texts_none,
}

-- The state `t` behind lines that store `lines` and `spans`, from the state `s` on
pub record Reached (lua : Bool) (s t : Parsing) (lines : List Bytes) (spans : List (Bytes × ℕ × ℕ))
    : Type 0 where
  pub calm : IsCalm lua t
  pub self : t.self ≡ record s.self {
    file_contents = s.self.file_contents ++ lines;
    snippets = add_spans spans s.self.snippets;
  }
  pub stack : t.snippets ≡ s.snippets
  pub count : t.line_number ≡ s.line_number + length lines

add_spans-append :
    (xs ys : List (Bytes × ℕ × ℕ)) (d : Dict Bytes Snippet)
    → add_spans (xs ++ ys) d ≡ add_spans ys (add_spans xs d)
unfolding add_spans
add_spans-append [] ys d = refl
add_spans-append (x ∷ xs) ys d = add_spans-append xs ys (add_span x d)

parse_lines-append :
    (boost : Boost) (s : Parsing) (xs ys : List Bytes)
    → parse_lines boost s (xs ++ ys) ≡ (parse_lines boost s xs >>= λ t. parse_lines boost t ys)
unfolding parse_lines
parse_lines-append boost s [] ys = refl
parse_lines-append boost s (x ∷ xs) ys =
    elim (next_line boost s x)
      as (λ r.
        (r >>= λ t. parse_lines boost t (xs ++ ys))
        ≡ (r >>= (λ t. parse_lines boost t xs) >>= λ t. parse_lines boost t ys)) [
          | ok t ↦ parse_lines-append boost t xs ys
          | fault why ↦ refl
        ]

parse_lines_step :
    (boost : Boost) (s t : Parsing) (line : Bytes) (lines : List Bytes)
    → next_line boost s line ≡ ok t
    → parse_lines boost s (line ∷ lines) ≡ parse_lines boost t lines
unfolding parse_lines
parse_lines_step boost s t line lines step = ap (λ r. r >>= λ t. parse_lines boost t lines) step

parse_lines_over : (boost : Boost) (s : Parsing) → parse_lines boost s [] ≡ ok s
unfolding parse_lines
parse_lines_over boost s = refl

over_Reached : (lua : Bool) (s : Parsing) → IsCalm lua s → Reached lua s s [] []
unfolding add_spans
over_Reached lua s calm = record {
  calm = calm;
  self = rw (append-nil s.self.file_contents) refl;
  stack = refl;
  count = omega arith;
}

-- Two runs of lines, one behind the other
then_Reached :
    (lua : Bool) (s t u : Parsing) (xs ys : List Bytes) (ps qs : List (Bytes × ℕ × ℕ))
    → Reached lua s t xs ps
    → Reached lua t u ys qs
    → Reached lua s u (xs ++ ys) (ps ++ qs)
then_Reached lua s t u xs ys ps qs first second = record {
  calm = second.calm;
  self =
      second.self
      ∙ rw (first.self) (
          rw (append_assoc s.self.file_contents xs ys, add_spans-append ps qs s.self.snippets)
            refl);
  stack = second.stack ∙ first.stack;
  count = omega (arith, first.count, second.count, length-append xs ys);
}

line_Reached :
    (boost : Boost) (lua : Bool) (s : Parsing) (line : Bytes) (calm : IsCalm lua s)
    → Reached lua s (with_line boost lua s calm line) (line ∷ []) []
unfolding add_spans
line_Reached boost lua s line calm = record {
  calm = record {
    language = calm.language;
    skips = calm.skips;
    no_comment = calm.no_comment;
    no_sections = calm.no_sections;
    no_excludes = calm.no_excludes;
    no_texts = calm.no_texts;
  };
  self = refl;
  stack = refl;
  count = omega arith;
}

open-IsCalm :
    (boost : Boost) (lua : Bool) (s : Parsing) (name : Bytes) (calm : IsCalm lua s)
    → IsCalm lua (with_open boost lua s calm name)
open-IsCalm boost lua s name calm = record {
  language = calm.language;
  skips = calm.skips;
  no_comment = calm.no_comment;
  no_sections = calm.no_sections;
  no_excludes = calm.no_excludes;
  no_texts = calm.no_texts;
}

-- A snippet whose inner lines are read and whose end follows
snippet_Reached :
    (boost : Boost) (lua : Bool) (s t : Parsing) (name : Bytes) (lines : List Bytes)
    (spans : List (Bytes × ℕ × ℕ)) (calm : IsCalm lua s)
    → Reached lua (with_open boost lua s calm name) t lines spans
    → Reached lua s
        (with_closed s.line_number name s.snippets t)
        lines
        (spans ++ (name, s.line_number, s.line_number + length lines) ∷ [])
unfolding add_spans
snippet_Reached boost lua s t name lines spans calm inner = record {
  calm = record {
    language = inner.calm.language;
    skips = inner.calm.skips;
    no_comment = inner.calm.no_comment;
    no_sections = refl;
    no_excludes = inner.calm.no_excludes;
    no_texts = λ n. closed_texts_none lua t name n inner.calm;
  };
  self =
      rw
        (
          inner.self,
          inner.count,
          add_spans-append spans ((name, s.line_number, s.line_number + length lines) ∷ [])
              s.self.snippets,
        )
        refl;
  stack = refl;
  count = inner.count;
}

rest_Reached :
    (lua : Bool) (s t u : Parsing) (xs ys : List Bytes) (p : Bytes × ℕ × ℕ)
    (ps qs rs : List (Bytes × ℕ × ℕ))
    → Reached lua s t xs (ps ++ p ∷ [])
    → Reached lua t u ys qs
    → qs ≡ rs
    → Reached lua s u (xs ++ ys) (ps ++ p ∷ rs)
rest_Reached lua s t u xs ys p ps qs rs first second same =
    rw (← same, ← append_assoc ps (p ∷ []) qs)
      (then_Reached lua s t u xs ys (ps ++ p ∷ []) qs first second)

abbrev Behind : Bool → Parsing → Source → Parsing → Type 0
Behind lua s src t = Reached lua s t (text_of src) (spans_of s.line_number src)

module _ (boost : Boost) (lua : Bool) where
  pub parse_lines-Reached :
      (src : Source) (s : Parsing)
      → IsCalm lua s
      → IsNested boost lua src
      → Returns (Behind lua s src) (parse_lines boost s (lines_of src))
  unfolding lines_of text_of spans_of
  parse_lines-Reached Source.over s calm h = rw (parse_lines_over boost s) (over_Reached lua s calm)
  parse_lines-Reached (Source.text line rest) s calm h =
      let t = with_line boost lua s calm line in
      let first = line_Reached boost lua s line calm in
      rw
        (parse_lines_step boost s t line (lines_of rest) (next_line_text boost lua s calm line h.0))
        (Returns-imp (Behind lua t rest) (Behind lua s (Source.text line rest))
          (λ u r. then_Reached lua s t u _ _ _ _ first r) (parse_lines boost t (lines_of rest))
          (parse_lines-Reached rest t first.calm h.1))
  parse_lines-Reached (Source.snippet start name inner stop rest) s calm h =
      let n = s.line_number in
      let m = n + length (text_of inner) in
      let s1 = with_open boost lua s calm name in
      let begun = next_line_start boost lua s calm start name h.0 in
      let all_of = Behind lua s (Source.snippet start name inner stop rest) in
      rw
        (
          parse_lines_step boost s s1 start (lines_of inner ++ stop ∷ lines_of rest) begun,
          parse_lines-append boost s1 (lines_of inner) (stop ∷ lines_of rest),
        )
        (Returns-bind (Behind lua s1 inner) all_of (parse_lines boost s1 (lines_of inner)) _
          (parse_lines-Reached inner s1 (open-IsCalm boost lua s name calm) h.1)
          (λ t inside.
            let t' = with_closed n name s.snippets t in
            let ended =
              next_line_end boost lua t n name stop s.snippets inside.calm h.2 inside.stack in
            let first =
              snippet_Reached boost lua s t name (text_of inner) (spans_of n inner) calm inside in
            rw (parse_lines_step boost t t' stop (lines_of rest) ended) (
              Returns-imp (Behind lua t' rest) all_of
                (λ u behind.
                  rest_Reached lua s t' u (text_of inner) (text_of rest) (name, n, m)
                    (spans_of n inner) _ (spans_of m rest) first behind
                    (ap (λ k. spans_of k rest) inside.count))
                (parse_lines boost t' (lines_of rest))
                (parse_lines-Reached rest t' first.calm h.3))))

-- What is stored of a source behind which every snippet is closed
abbrev pub stored_of : Extractor → Source → Extractor
stored_of e src = record e {
  file_contents = text_of src;
  snippets =
      emplace (codes "all")
        (record {
          line_spans = (0, length (text_of src)) ∷ [];
          name = codes "all";
          excludes = [];
          text_if_excluded = [];
        })
        (add_spans (spans_of 0 src) []);
}
