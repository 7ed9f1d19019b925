-- ===== src/Streams/Sets.antt =====
-- libwm/algorithm.cc: the reader of a set of strings on what the printer of one writes.
use extractor.Base.{
  ℕ, zero, suc, ◌+◌, ◌*◌, ◌<◌, ◌≡◌, refl, sym, ◌∙◌, true, false, List, [], ◌∷◌, ◌++◌, some, arith,
  Bytes, All, length, codes, bytes_eq, bytes_less, bytes_key, insert, insert_all, append_assoc,
  append-nil, All-append,
}
use extractor.Streams.{print_items, print_list}
use extractor.Streams.Input.{InStream, at, read_word, read_tokens, read_strings, read_string_set}
use extractor.Streams.Words.{IsToken, read_word-space, read_word-append}
use extractor.Streams.RoundTrip.{
  items_nil, items_cons, list_cons, list_nil, read_sign, space_32, solid_44, solid_91, solid_93,
}

-- A word that the loop over a set takes for an element
abbrev pub IsElement : Bytes → Type 0
IsElement e = IsToken e × (bytes_eq e (codes "]") ≡ false) × (bytes_eq e (codes ",") ≡ false)

put : Bytes → List Bytes → List Bytes
put x xs = insert x xs

word_round :
    (fuel : ℕ) (token next : Bytes) (xs : List Bytes) (input out : InStream)
    → IsElement token
    → read_word token input ≡ (next, out)
    → read_tokens put (suc fuel) token xs input ≡ read_tokens put fuel next (insert token xs) out
unfolding read_tokens put
word_round fuel token next xs input out element word =
    rw (element.1, read_tokens) (rw (element.2, word) refl)

comma_round :
    (fuel : ℕ) (next : Bytes) (xs : List Bytes) (input out : InStream)
    → read_word (codes ",") input ≡ (next, out)
    → read_tokens put (suc fuel) (codes ",") xs input ≡ read_tokens put fuel next xs out
unfolding read_tokens bytes_eq
comma_round fuel next xs input out word = rw word refl

tokens_end :
    (fuel : ℕ) (xs : List Bytes) (out : InStream)
    → 0 < fuel
    → read_tokens put fuel (codes "]") xs out ≡ some (xs, out)
unfolding read_tokens bytes_eq
tokens_end zero xs out h = absurd (omega arith)
tokens_end (suc fuel) xs out h = refl

-- An element is followed by a space, whatever elements stand behind it.
read_element :
    (token x : Bytes) (xs : List Bytes) (s : Bytes)
    → IsToken x
    → read_word token (at (32 ∷ (x ++ (print_items (λ e. e) false xs ++ (32 ∷ s)))))
      ≡ (x, at (print_items (λ e. e) false xs ++ (32 ∷ s)))
read_element token x [] s solid = rw (items_nil (λ e. e) (32 ∷ s)) (
    read_word-space token (x ++ (32 ∷ s)) 32 space_32
    ∙ read_word-append token x s 32 solid space_32)
read_element token x (y ∷ ys) s solid = rw (items_cons (λ e. e) y ys (32 ∷ s)) (
    read_word-space token (x ++ (32 ∷ _)) 32 space_32
    ∙ read_word-append token x _ 32 solid space_32)

read_tokens-print_items :
    (fuel : ℕ) (x : Bytes) (xs acc : List Bytes) (s : Bytes)
    → length xs * 2 + 1 < fuel
    → All IsElement (x ∷ xs)
    → read_tokens put fuel x acc (at (print_items (λ e. e) false xs ++ (32 ∷ 93 ∷ 32 ∷ s)))
      ≡ some (insert_all (x ∷ xs) acc, at (32 ∷ s))
unfolding insert_all
read_tokens-print_items zero x xs acc s enough elements = absurd (omega arith)
read_tokens-print_items (suc zero) x xs acc s enough elements = absurd (omega arith)
read_tokens-print_items (suc (suc fuel)) x [] acc s enough elements =
    rw (items_nil (λ e. e) (32 ∷ 93 ∷ 32 ∷ s)) (
      word_round (suc fuel) x _ acc _ _ elements.0 (read_sign x s 93 solid_93)
      ∙ tokens_end (suc fuel) (insert x acc) (at (32 ∷ s)) (omega arith))
read_tokens-print_items (suc (suc fuel)) x (y ∷ ys) acc s enough elements =
    rw (items_cons (λ e. e) y ys (32 ∷ 93 ∷ 32 ∷ s)) (
      word_round (suc fuel) x _ acc _ _ elements.0 (read_sign x _ 44 solid_44)
      ∙ comma_round fuel y (insert x acc) _ _ (read_element (codes ",") y ys _ elements.1.0.0)
      ∙ read_tokens-print_items fuel y ys (insert x acc) s (omega arith) elements.1)

strings_rule :
    (fuel : ℕ) (token : Bytes) (input in1 in2 : InStream)
    → read_word [] input ≡ (codes "[", in1)
    → read_word (codes "[") in1 ≡ (token, in2)
    → read_string_set fuel [] input ≡ read_tokens put fuel token [] in2
unfolding read_string_set read_strings bytes_eq put
strings_rule fuel token input in1 in2 bracket first = rw (bracket, first) refl

pub read_string_set-print_list :
    (fuel : ℕ) (xs : List Bytes) (s : Bytes)
    → length xs * 2 < fuel
    → All IsElement xs
    → read_string_set fuel [] (at (32 ∷ (print_list (λ e. e) xs ++ (32 ∷ s))))
      ≡ some (insert_all xs [], at (32 ∷ s))
unfolding insert_all
read_string_set-print_list fuel [] s enough elements = rw (list_nil (λ e. e) (32 ∷ s)) (
    strings_rule fuel (codes "]") _ _ _ (read_sign [] _ 91 solid_91)
      (read_word-space _ _ 32 space_32 ∙ read_sign _ s 93 solid_93)
    ∙ tokens_end fuel [] (at (32 ∷ s)) enough)
read_string_set-print_list fuel (x ∷ xs) s enough elements = rw (list_cons (λ e. e) x xs (32 ∷ s)) (
    strings_rule fuel x _ _ _ (read_sign [] _ 91 solid_91) (read_element _ x xs _ elements.0.0)
    ∙ read_tokens-print_items fuel x xs [] s (omega arith) elements)

-- The order in which a `std::set` keeps its elements
abbrev pub Ascending : List Bytes → Type 0
Ascending [] = Unit
Ascending (x ∷ xs) = All (λ y. bytes_less x y ≡ true) xs × Ascending xs

less_not_back :
    (a b : Bytes) → bytes_less a b ≡ true → (bytes_eq a b ≡ false) × (bytes_less b a ≡ false)
unfolding bytes_less bytes_eq
less_not_back [] [] h = cc
less_not_back [] (y ∷ b) h = (refl, refl)
less_not_back (x ∷ a) [] h = cc
less_not_back (x ∷ a) (y ∷ b) h = ground (arith, less_not_back a b)

insert_last :
    (k : Bytes) (front : List Bytes)
    → All (λ j. bytes_less j k ≡ true) front
    → insert k front ≡ front ++ k ∷ []
unfolding insert
insert_last k [] h = refl
insert_last k (j ∷ front) h =
    let apart = less_not_back j k h.0 in rw (apart.0, apart.1, insert_last k front h.1) refl

above_both :
    (x : Bytes) (xs front : List Bytes)
    → All (λ y. bytes_less x y ≡ true) xs
    → All (λ y. All (λ j. bytes_less j y ≡ true) front) xs
    → All (λ y. All (λ j. bytes_less j y ≡ true) (front ++ x ∷ [])) xs
above_both x [] front h hs = tt
above_both x (y ∷ xs) front h hs = (
  All-append (λ j. bytes_less j y ≡ true) front (x ∷ []) hs.0 (h.0, tt),
  above_both x xs front h.1 hs.1,
)

insert_all-append :
    (xs front : List Bytes)
    → Ascending xs
    → All (λ x. All (λ j. bytes_less j x ≡ true) front) xs
    → insert_all xs front ≡ front ++ xs
unfolding insert_all
insert_all-append [] front sorted above = sym (append-nil front)
insert_all-append (x ∷ xs) front sorted above = rw (insert_last x front above.0) (
    insert_all-append xs (front ++ x ∷ []) sorted.1 (above_both x xs front sorted.0 above.1)
    ∙ append_assoc front (x ∷ []) xs)

none_above : (xs : List Bytes) → All (λ x. All (λ j. bytes_less j x ≡ true) []) xs
none_above [] = tt
none_above (x ∷ xs) = (tt, none_above xs)

pub insert_all-Ascending : (xs : List Bytes) → Ascending xs → insert_all xs [] ≡ xs
insert_all-Ascending xs sorted = insert_all-append xs [] sorted (none_above xs)
