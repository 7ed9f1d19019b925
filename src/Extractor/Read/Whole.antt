-- ===== src/Extractor/Read/Whole.antt =====
-- extract/cppextractor.cc: `snippets(path)` on the list that the generator writes.
use extractor.Base.{
  ℕ, zero, suc, ◌+◌, ◌≤◌, ◌≡◌, refl, sym, ◌∙◌, true, false, List, [], ◌∷◌, ◌++◌, some, arith, Bytes,
  Dict, codes, bytes_eq, is_space, append_assoc, append-nil, List-cases, inl, inr,
}
use extractor.Streams.Input.{InStream, at, read_word, skip_spaces, is_good, unread}
use extractor.Streams.Words.{read_word-space}
use extractor.Streams.RoundTrip.{space_32}
use extractor.Util.{find}
use extractor.Extractor.{Snippet}
use extractor.Extractor.Parse.{getlines}
use extractor.Extractor.Print.{print_snippet, print_snippets}
use extractor.Extractor.Read.{
  empty_snippet, read_snippet, has_spans, is_snippet_line, are_snippet_lines, is_snippet_file,
  snippets_loop, read_snippets, read_snippet_word,
}
use extractor.Extractor.Read.RoundTrip.{
  IsReadable, without_text, snippet_rounds, read_snippet-print_snippet, print_snippet-append,
}

-- The rounds that a list of snippets needs at most
abbrev pub reading_rounds : Dict Bytes Snippet → ℕ
reading_rounds [] = 2
reading_rounds ((name, s) ∷ rest) = suc (snippet_rounds s + reading_rounds rest)

abbrev pub AllReadable : Dict Bytes Snippet → Type 0
AllReadable [] = Unit
AllReadable ((name, s) ∷ rest) = IsReadable s × AllReadable rest

-- The snippets of a list, without the text for excluded lines
abbrev pub written : Dict Bytes Snippet → List Snippet
written [] = []
written ((name, s) ∷ rest) = without_text s ∷ written rest

read_snippet-space :
    (fuel : ℕ) (s : Snippet) (t : Bytes) (c : ℕ)
    → is_space c ≡ true
    → read_snippet fuel s (at (c ∷ t)) ≡ read_snippet fuel s (at t)
unfolding read_snippet
read_snippet-space fuel s t c space = rw (read_word-space [] t c space) refl

space_10 : is_space 10 ≡ true
unfolding is_space
space_10 = refl

has_spans-readable : (s : Snippet) → IsReadable s → has_spans (without_text s) ≡ true
unfolding has_spans
has_spans-readable s h = elim (List-cases s.line_spans) [
  | inl none_left ↦ absurd (h.spans_some none_left)
  | inr (x, xs, e) ↦ rw e refl
]

loop_round :
    (fuel : ℕ) (acc : List Snippet) (s : Snippet) (t : Bytes) (out : InStream)
    → read_snippet fuel empty_snippet (at t) ≡ some (s, out)
    → has_spans s ≡ true
    → snippets_loop (suc fuel) acc (at t) ≡ snippets_loop fuel (acc ++ s ∷ []) out
unfolding snippets_loop
loop_round fuel acc s t out read spans = rw (read, snippets_loop) (rw spans refl)

ended : InStream
ended = record { rest = []; eof = true; fail = true }

blank_read :
    (fuel : ℕ) → read_snippet fuel empty_snippet (at (32 ∷ 10 ∷ [])) ≡ some (empty_snippet, ended)
unfolding ended read_snippet read_snippet_word read_word skip_spaces is_good unread is_space
    bytes_eq
blank_read fuel = refl

empty_read : (fuel : ℕ) → read_snippet fuel empty_snippet (at []) ≡ some (empty_snippet, ended)
unfolding ended read_snippet read_snippet_word read_word skip_spaces is_good unread bytes_eq
empty_read fuel = refl

loop_end :
    (fuel : ℕ) (acc : List Snippet) (t : Bytes)
    → 2 ≤ fuel
    → ((k : ℕ) → read_snippet k empty_snippet (at t) ≡ some (empty_snippet, ended))
    → snippets_loop fuel acc (at t) ≡ some acc
unfolding snippets_loop has_spans ended
loop_end zero acc t h reads = absurd (omega arith)
loop_end (suc zero) acc t h reads = absurd (omega arith)
loop_end (suc (suc fuel)) acc t h reads = rw (reads (suc fuel), snippets_loop) refl

loop_all :
    (fuel : ℕ) (acc : List Snippet) (d : Dict Bytes Snippet)
    → reading_rounds d ≤ fuel
    → AllReadable d
    → snippets_loop fuel acc (at (32 ∷ 10 ∷ print_snippets d)) ≡ some (acc ++ written d)
unfolding print_snippets
loop_all zero acc [] enough h = absurd (omega arith)
loop_all zero acc ((name, s) ∷ d) enough h = absurd (omega arith)
loop_all (suc fuel) acc [] enough h =
    rw (append-nil acc) (loop_end (suc fuel) acc _ enough blank_read)
loop_all (suc fuel) acc ((name, s) ∷ d) enough h =
    loop_round fuel acc (without_text s) _ _
      (read_snippet-space fuel empty_snippet _ 32 space_32
        ∙ read_snippet-space fuel empty_snippet _ 10 space_10
        ∙ sym (read_snippet-space fuel empty_snippet _ 32 space_32)
        ∙ read_snippet-print_snippet fuel s (10 ∷ print_snippets d) (omega arith) h.0)
      (has_spans-readable s h.0)
    ∙ loop_all fuel (acc ++ without_text s ∷ []) d (omega arith) h.1
    ∙ rw (append_assoc acc (without_text s ∷ []) (written d)) refl

-- The first line of a list holds the word that the test of a file looks for.
getlines_snippet :
    (t : Bytes)
    → (l : Bytes) × (ls : List Bytes) × getlines (codes "Snippet" ++ t)
        ≡ (codes "Snippet" ++ l) ∷ ls
unfolding getlines
getlines_snippet t = elim (List-cases (getlines t)) [
  | inl e ↦ ([], [], rw e refl)
  | inr (l, ls, e) ↦ (l, ls, rw e refl)
]

line_found : (l : Bytes) → is_snippet_line (codes "Snippet" ++ l) ≡ true
unfolding is_snippet_line find
line_found l = refl

pub file_found : (t : Bytes) → is_snippet_file false (some (codes "Snippet" ++ t)) ≡ true
unfolding is_snippet_file are_snippet_lines
file_found t = let (l, ls, e) = getlines_snippet t in rw (e, line_found l) refl

pub read_some :
    (fuel : ℕ) (t : Bytes)
    → is_snippet_file false (some t) ≡ true
    → read_snippets fuel (some t) ≡ snippets_loop fuel [] (at t)
unfolding read_snippets
read_some fuel t found = rw found refl

cons_found : (s : Snippet) (t : Bytes) → is_snippet_file false (some (print_snippet s ++ t)) ≡ true
cons_found s t = rw (print_snippet-append s t) (file_found _)

nil_found : is_snippet_file false (some []) ≡ true
unfolding is_snippet_file are_snippet_lines getlines
nil_found = refl

-- The list of snippets that the generator writes is read back by `snippets(path)`, in its order and
-- in at most `reading_rounds` rounds of each loop. It has no texts for excluded lines. Names and
-- excludes are words without spaces, each snippet has a span, and the numbers fit a `size_t`.
pub read_snippets-print_snippets :
    (fuel : ℕ) (d : Dict Bytes Snippet)
    → reading_rounds d ≤ fuel
    → AllReadable d
    → read_snippets fuel (some (print_snippets d)) ≡ some (written d)
unfolding print_snippets
read_snippets-print_snippets zero [] enough h = absurd (omega arith)
read_snippets-print_snippets zero ((name, s) ∷ d) enough h = absurd (omega arith)
read_snippets-print_snippets (suc fuel) [] enough h =
    read_some (suc fuel) [] nil_found ∙ loop_end (suc fuel) [] [] enough empty_read
read_snippets-print_snippets (suc fuel) ((name, s) ∷ d) enough h =
    read_some (suc fuel) _ (cons_found s (10 ∷ print_snippets d))
    ∙ loop_round fuel [] (without_text s) _ _
        (sym (read_snippet-space fuel empty_snippet _ 32 space_32)
          ∙ read_snippet-print_snippet fuel s (10 ∷ print_snippets d) (omega arith) h.0)
        (has_spans-readable s h.0)
    ∙ loop_all fuel (without_text s ∷ []) d (omega arith) h.1
