-- ===== src/Extractor/Read/Endless.antt =====
-- extract/cppextractor.cc: `snippets(path)` on a text whose list of spans has no end.
use extractor.Base.{ℕ, zero, suc, ◌≡◌, refl, ◌∙◌, List, [], ◌∷◌, ◌++◌, none, some, Bytes, codes}
use extractor.Streams.{print_pair}
use extractor.Streams.Input.{InStream, at, read_word, read_pair, read_vector}
use extractor.Streams.Words.{IsToken, read_word-append}
use extractor.Streams.RoundTrip.{
  FitsPair, read_pair-print_pair, read_vector_rule, read_sign, solid_91, space_32,
}
use extractor.Streams.Endless.{NoClose, read_items-endless, read_pair-KeepsNoClose}
use extractor.Extractor.{Snippet}
use extractor.Extractor.Read.{
  empty_snippet, read_snippet, read_name, read_spans, snippets_loop, read_snippets,
}
use extractor.Extractor.Read.RoundTrip.{snippet_rule, spaced_word, IsToken-snippet}
use extractor.Extractor.Read.Whole.{file_found, read_some}

spans_endless :
    (fuel : ℕ) (t : Bytes)
    → NoClose t
    → read_vector read_pair (0, 0) fuel [] (at (32 ∷ 91 ∷ 32 ∷ t)) ≡ none
spans_endless fuel t h =
    read_vector_rule print_pair FitsPair read_pair (0, 0) (read_pair-print_pair (0, 0)) fuel [] _ _
      (read_sign [] t 91 solid_91)
    ∙ read_items-endless read_pair (0, 0) fuel (codes "[") [] (at (32 ∷ t))
        (read_pair-KeepsNoClose (0, 0)) (refl, tt) (refl, h)

name_endless :
    (fuel : ℕ) (token name : Bytes) (s : Snippet) (in0 in1 : InStream)
    → read_word token in0 ≡ (name, in1)
    → IsToken name
    → read_vector read_pair (0, 0) fuel [] in1 ≡ none
    → read_name fuel s (read_word token in0) ≡ none
unfolding read_name read_spans
name_endless fuel token [] s in0 in1 word solid spans = elim solid [ ]
name_endless fuel token (c ∷ name) s in0 in1 word solid spans = rw (word, spans) refl

snippet_endless :
    (fuel : ℕ) (name t : Bytes)
    → IsToken name
    → NoClose t
    → read_snippet fuel empty_snippet (at (codes "Snippet [ " ++ (name ++ (codes " [ " ++ t))))
      ≡ none
snippet_endless fuel name t solid h =
    snippet_rule fuel _ _ _ (read_word-append [] (codes "Snippet") _ 32 IsToken-snippet space_32)
      (read_sign _ _ 91 solid_91)
    ∙ name_endless fuel (codes "[") name empty_snippet _ _ (spaced_word _ name _ solid) solid
        (spans_endless fuel t h)

loop_endless :
    (fuel : ℕ) (acc : List Snippet) (t : Bytes)
    → ((k : ℕ) → read_snippet k empty_snippet (at t) ≡ none)
    → snippets_loop fuel acc (at t) ≡ none
unfolding snippets_loop
loop_endless zero acc t reads = refl
loop_endless (suc fuel) acc t reads = rw (reads fuel, snippets_loop) refl

-- A file that holds the start of a snippet and no closing bracket behind it keeps `snippets(path)`
-- in its loop for ever: no number of rounds is enough.
pub read_snippets-endless :
    (fuel : ℕ) (name t : Bytes)
    → IsToken name
    → NoClose t
    → read_snippets fuel (some (codes "Snippet [ " ++ (name ++ (codes " [ " ++ t)))) ≡ none
read_snippets-endless fuel name t solid h =
    read_some fuel _ (file_found _) ∙ loop_endless fuel [] _ (λ k. snippet_endless k name t solid h)
