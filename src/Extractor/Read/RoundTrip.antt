-- ===== src/Extractor/Read/RoundTrip.antt =====
-- extract/cppextractor.cc: the reader of snippets on what `operator<<` of a snippet writes.
use extractor.Base.{
  ℕ, ◌+◌, ◌*◌, ◌<◌, ◌≤◌, ◌≡◌, ◌≢◌, refl, ◌∙◌, List, [], ◌∷◌, ◌++◌, some, arith, Bytes, All, length,
  codes, bytes_eq, is_space, append_assoc, insert_all, bytes_key,
}
use extractor.Streams.{print_list, print_pair}
use extractor.Streams.Input.{InStream, at, read_word, read_pair, read_vector, read_string_set}
use extractor.Streams.Words.{IsToken, read_word-space, read_word-append}
use extractor.Streams.RoundTrip.{
  FitsPair, read_pair-print_pair, read_vector-print_list, read_sign, space_32, solid_91, solid_93,
}
use extractor.Streams.Sets.{IsElement, Ascending, read_string_set-print_list, insert_all-Ascending}
use extractor.Extractor.{Snippet}
use extractor.Extractor.Print.{print_snippet}
use extractor.Extractor.Read.{
  empty_snippet, read_close, read_excludes, read_exclude_word, read_spans, read_name, read_open,
  read_snippet_word, read_snippet,
}

-- A snippet whose text form can be read: its name and its excludes are words.
pub record IsReadable (s : Snippet) : Type 0 where
  pub name_IsToken : IsToken s.name
  pub spans_some : s.line_spans ≢ []
  pub spans_fit : All FitsPair s.line_spans
  pub elements : All IsElement s.excludes
  pub ascending : Ascending s.excludes

-- The text form has no text for the excluded lines.
abbrev pub without_text : Snippet → Snippet
without_text s = record s { text_if_excluded = [] }

excludes_rule :
    (fuel : ℕ) (s snippet : Snippet) (token : Bytes) (names : List Bytes)
    (in0 in1 in2 in3 : InStream)
    → read_word token in0 ≡ (codes "exclude", in1)
    → read_string_set fuel [] in1 ≡ some (names, in2)
    → read_word (codes "exclude") in2 ≡ (codes "]", in3)
    → read_exclude_word fuel s snippet (read_word token in0)
      ≡ some (record snippet { excludes = names }, in3)
unfolding read_exclude_word read_excludes read_close bytes_eq
excludes_rule fuel s snippet token names in0 in1 in2 in3 word set close = rw (word, set, close) refl

spans_rule :
    (fuel : ℕ) (token name : Bytes) (s : Snippet) (x : ℕ × ℕ) (xs : List (ℕ × ℕ))
    (in0 in1 in2 : InStream)
    → read_word token in0 ≡ (name, in1)
    → IsToken name
    → read_vector read_pair (0, 0) fuel [] in1 ≡ some (x ∷ xs, in2)
    → read_name fuel s (read_word token in0)
      ≡ read_exclude_word fuel s
          (record empty_snippet { name = name; line_spans = x ∷ xs })
          (read_word name in2)
unfolding read_name read_spans
spans_rule fuel token [] s x xs in0 in1 in2 word solid spans = elim solid [ ]
spans_rule fuel token (c ∷ name) s x xs in0 in1 in2 word solid spans = rw (word, spans) refl

pub snippet_rule :
    (fuel : ℕ) (in0 in1 in2 : InStream)
    → read_word [] in0 ≡ (codes "Snippet", in1)
    → read_word (codes "Snippet") in1 ≡ (codes "[", in2)
    → read_snippet fuel empty_snippet in0 ≡ read_name fuel empty_snippet (read_word (codes "[") in2)
unfolding read_snippet read_snippet_word read_open bytes_eq
snippet_rule fuel in0 in1 in2 word bracket = rw (word, bracket) refl

pub print_snippet-append :
    (s : Snippet) (t : Bytes)
    → print_snippet s ++ t
      ≡ codes "Snippet"
        ++ (32
            ∷ 91
            ∷ 32
            ∷ (s.name
                ++ (32
                    ∷ (print_list print_pair s.line_spans
                        ++ (32
                            ∷ (codes "exclude"
                                ++ (32
                                    ∷ (print_list (λ e. e) s.excludes ++ (32 ∷ 93 ∷ 32 ∷ t)))))))))
unfolding print_snippet
print_snippet-append s t = simp (append_assoc)

pub IsToken-snippet : IsToken (codes "Snippet")
unfolding is_space
IsToken-snippet = (refl, (refl, (refl, (refl, (refl, (refl, (refl, tt)))))))

IsToken-exclude : IsToken (codes "exclude")
unfolding is_space
IsToken-exclude = (refl, (refl, (refl, (refl, (refl, (refl, (refl, tt)))))))

pub spaced_word :
    (token w s : Bytes) → IsToken w → read_word token (at (32 ∷ (w ++ (32 ∷ s)))) ≡ (w, at (32 ∷ s))
spaced_word token w s solid =
    read_word-space token (w ++ (32 ∷ s)) 32 space_32 ∙ read_word-append token w s 32 solid space_32

-- What each of the loops needs for a snippet
abbrev pub snippet_rounds : Snippet → ℕ
snippet_rounds s = length s.line_spans + length s.excludes * 2 + 2

named_read :
    (fuel : ℕ) (token : Bytes) (s : Snippet) (spans : List (ℕ × ℕ)) (name t : Bytes)
    → length spans < fuel
    → spans ≢ []
    → All FitsPair spans
    → IsToken name
    → read_name fuel s
        (read_word token (at (32 ∷ (name ++ (32 ∷ (print_list print_pair spans ++ (32 ∷ t)))))))
      ≡ read_exclude_word fuel s
          (record empty_snippet { name = name; line_spans = spans })
          (read_word name (at (32 ∷ t)))
named_read fuel token s [] name t enough some_span fits solid = absurd (some_span refl)
named_read fuel token s (x ∷ xs) name t enough some_span fits solid =
    spans_rule fuel token name s x xs _ _ _ (spaced_word token name _ solid) solid (
      read_vector-print_list print_pair FitsPair read_pair (0, 0) (read_pair-print_pair (0, 0)) fuel
        x xs t (omega arith) fits)

pub read_snippet-print_snippet :
    (fuel : ℕ) (s : Snippet) (t : Bytes)
    → snippet_rounds s ≤ fuel
    → IsReadable s
    → read_snippet fuel empty_snippet (at (32 ∷ (print_snippet s ++ t)))
      ≡ some (without_text s, at (32 ∷ t))
read_snippet-print_snippet fuel s t enough h = rw (print_snippet-append s t) (
    snippet_rule fuel _ _ _ (spaced_word [] _ _ IsToken-snippet) (read_sign _ _ 91 solid_91)
    ∙ named_read fuel _ _ s.line_spans s.name _ (omega arith) h.spans_some h.spans_fit
        h.name_IsToken
    ∙ excludes_rule fuel _ _ s.name (insert_all s.excludes []) _ _ _ _
        (spaced_word s.name _ _ IsToken-exclude)
        (read_string_set-print_list fuel s.excludes _ (omega arith) h.elements)
        (read_sign _ t 93 solid_93)
    ∙ rw (insert_all-Ascending s.excludes h.ascending) refl)
