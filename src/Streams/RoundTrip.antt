-- ===== src/Streams/RoundTrip.antt =====
-- libwm/algorithm.h and libwm/algorithm.cc: the readers of pairs and containers on what the printers
-- of them write.
use extractor.Base.{
  ℕ, zero, suc, ◌+◌, ◌≤◌, ◌<◌, ◌≡◌, refl, ◌∙◌, true, false, List, [], ◌∷◌, ◌++◌, append_assoc, some,
  arith, Bytes, All, length, codes, to_string, bytes_eq, bytes_key, is_space, is_digit,
}
use extractor.Streams.{print_items, print_list, print_pair}
use extractor.Streams.Input.{
  InStream, at, read_word, read_number, read_first, read_second, read_pair, read_items, read_vector,
}
use extractor.Streams.Words.{
  read_word-space, read_word-append, read_number-space, read_number-to_string,
}

-- The numbers are values of a `size_t`.
abbrev pub FitsPair : ℕ × ℕ → Type 0
FitsPair (a, b) = (a ≤ 18446744073709551615) × (b ≤ 18446744073709551615)

print_pair-append :
    (a b : ℕ) (s : Bytes)
    → print_pair (a, b) ++ s
      ≡ 40 ∷ 32 ∷ (to_string a ++ (32 ∷ 44 ∷ 32 ∷ (to_string b ++ (32 ∷ 41 ∷ s))))
unfolding print_pair
print_pair-append a b s = simp (append_assoc)

pub read_second_rule :
    (p : ℕ × ℕ) (first second : ℕ) (token : Bytes) (in3 in4 in5 : InStream)
    → read_number 0 in3 ≡ (second, in4)
    → read_word token in4 ≡ (codes ")", in5)
    → read_second p first token in3 ≡ ((first, second), in5)
unfolding read_second bytes_eq
read_second_rule p first second token in3 in4 in5 number close = rw (number, close) refl

pub read_first_rule :
    (p q : ℕ × ℕ) (first : ℕ) (token : Bytes) (in1 in2 in3 out : InStream)
    → read_number 0 in1 ≡ (first, in2)
    → read_word token in2 ≡ (codes ",", in3)
    → read_second p first (codes ",") in3 ≡ (q, out)
    → read_first p token in1 ≡ (q, out)
unfolding read_first bytes_eq
read_first_rule p q first token in1 in2 in3 out number comma second = rw (number, comma) second

pub read_pair_rule :
    (p q : ℕ × ℕ) (input in1 out : InStream)
    → read_word [] input ≡ (codes "(", in1)
    → read_first p (codes "(") in1 ≡ (q, out)
    → read_pair p input ≡ (q, out)
unfolding read_pair bytes_eq
read_pair_rule p q input in1 out open_bracket first = rw open_bracket first

pub space_32 : is_space 32 ≡ true
unfolding is_space
space_32 = refl

pub digit_32 : is_digit 32 ≡ false
unfolding is_digit
digit_32 = refl

pub solid_40 : is_space 40 ≡ false
unfolding is_space
solid_40 = refl

pub solid_41 : is_space 41 ≡ false
unfolding is_space
solid_41 = refl

pub solid_44 : is_space 44 ≡ false
unfolding is_space
solid_44 = refl

pub solid_91 : is_space 91 ≡ false
unfolding is_space
solid_91 = refl

pub solid_93 : is_space 93 ≡ false
unfolding is_space
solid_93 = refl

comma_more : bytes_eq (codes ",") (codes "]") ≡ false
unfolding bytes_eq
comma_more = refl

bracket_more : bytes_eq (codes "[") (codes "]") ≡ false
unfolding bytes_eq
bracket_more = refl

-- One sign between spaces
pub read_sign :
    (token s : Bytes) (c : ℕ)
    → is_space c ≡ false
    → read_word token (at (32 ∷ c ∷ 32 ∷ s)) ≡ (c ∷ [], at (32 ∷ s))
read_sign token s c solid =
    read_word-space token (c ∷ 32 ∷ s) 32 space_32
    ∙ read_word-append token (c ∷ []) s 32 (rw solid (refl, tt)) space_32

spaced_number :
    (n : ℕ) (s : Bytes)
    → n ≤ 18446744073709551615
    → read_number 0 (at (32 ∷ (to_string n ++ (32 ∷ s)))) ≡ (n, at (32 ∷ s))
spaced_number n s fits =
    read_number-space 0 (to_string n ++ (32 ∷ s)) 32 space_32
    ∙ read_number-to_string 0 n s 32 fits digit_32

pub read_pair-print_pair :
    (p q : ℕ × ℕ) (s : Bytes)
    → FitsPair q
    → read_pair p (at (32 ∷ (print_pair q ++ (32 ∷ s)))) ≡ (q, at (32 ∷ s))
read_pair-print_pair p (a, b) s fits = rw (print_pair-append a b (32 ∷ s)) (
    read_pair_rule p (a, b) _ _ _ (read_sign [] _ 40 solid_40)
      (read_first_rule p (a, b) a _ _ _ _ _ (spaced_number a _ fits.0) (read_sign _ _ 44 solid_44)
        (read_second_rule p a b _ _ _ _ (spaced_number b _ fits.1) (read_sign _ _ 41 solid_41))))

module _ {A : Type 0} (print : A → Bytes) where
  pub items_nil : (s : Bytes) → print_items print false [] ++ s ≡ s
  unfolding print_items
  items_nil s = refl

  pub items_cons :
      (x : A) (xs : List A) (s : Bytes)
      → print_items print false (x ∷ xs) ++ s
        ≡ 32 ∷ 44 ∷ 32 ∷ (print x ++ (print_items print false xs ++ s))
  unfolding print_items
  items_cons x xs s = simp (append_assoc)

  pub list_cons :
      (x : A) (xs : List A) (s : Bytes)
      → print_list print (x ∷ xs) ++ s
        ≡ 91 ∷ 32 ∷ (print x ++ (print_items print false xs ++ (32 ∷ 93 ∷ s)))
  unfolding print_list print_items
  list_cons x xs s = simp (append_assoc)

  pub list_nil : (s : Bytes) → print_list print [] ++ s ≡ 91 ∷ 32 ∷ 32 ∷ 93 ∷ s
  unfolding print_list print_items
  list_nil s = refl

  module _ (P : A → Type 0) (read : A → InStream → A × InStream) (item : A)
      (reads : (x : A) (s : Bytes)
        → P x
        → read item (at (32 ∷ (print x ++ (32 ∷ s)))) ≡ (x, at (32 ∷ s))) where
    -- One round of the loop over a vector
    items_round :
        (fuel : ℕ) (token next : Bytes) (v : List A) (x : A) (s : Bytes) (out : InStream)
        → bytes_eq token (codes "]") ≡ false
        → P x
        → read_word token (at (32 ∷ s)) ≡ (next, out)
        → read_items read item (suc fuel) token v (at (32 ∷ (print x ++ (32 ∷ s))))
          ≡ read_items read item fuel next (v ++ x ∷ []) out
    unfolding read_items
    items_round fuel token next v x s out more holds word =
        rw (more, read_items) (rw (reads x s holds, word) refl)

    items_end :
        (fuel : ℕ) (v : List A) (out : InStream)
        → 0 < fuel
        → read_items read item fuel (codes "]") v out ≡ some (v, out)
    unfolding read_items bytes_eq
    items_end zero v out h = absurd (omega arith)
    items_end (suc fuel) v out h = refl

    read_items-print_items :
        (fuel : ℕ) (token : Bytes) (v : List A) (x : A) (xs : List A) (s : Bytes)
        → length xs + 1 < fuel
        → bytes_eq token (codes "]") ≡ false
        → All P (x ∷ xs)
        → read_items read item fuel token v
            (at (32 ∷ (print x ++ (print_items print false xs ++ (32 ∷ 93 ∷ 32 ∷ s)))))
          ≡ some (v ++ x ∷ xs, at (32 ∷ s))
    read_items-print_items zero token v x xs s enough more holds = absurd (omega arith)
    read_items-print_items (suc fuel) token v x [] s enough more holds =
        rw (items_nil (32 ∷ 93 ∷ 32 ∷ s)) (
          items_round fuel token _ v x _ _ more holds.0 (read_sign token s 93 solid_93)
          ∙ items_end fuel (v ++ x ∷ []) (at (32 ∷ s)) (omega arith))
    read_items-print_items (suc fuel) token v x (y ∷ xs) s enough more holds =
        rw (items_cons y xs (32 ∷ 93 ∷ 32 ∷ s)) (
          items_round fuel token _ v x _ _ more holds.0 (read_sign token _ 44 solid_44)
          ∙ read_items-print_items fuel (codes ",") (v ++ x ∷ []) y xs s (omega arith) comma_more
              holds.1
          ∙ rw (append_assoc v (x ∷ []) (y ∷ xs)) refl)

    pub read_vector_rule :
        (fuel : ℕ) (v : List A) (input in1 : InStream)
        → read_word [] input ≡ (codes "[", in1)
        → read_vector read item fuel v input ≡ read_items read item fuel (codes "[") v in1
    unfolding read_vector bytes_eq
    read_vector_rule fuel v input in1 word = rw word refl

    pub read_vector-print_list :
        (fuel : ℕ) (x : A) (xs : List A) (s : Bytes)
        → length xs + 1 < fuel
        → All P (x ∷ xs)
        → read_vector read item fuel [] (at (32 ∷ (print_list print (x ∷ xs) ++ (32 ∷ s))))
          ≡ some (x ∷ xs, at (32 ∷ s))
    read_vector-print_list fuel x xs s enough holds = rw (list_cons x xs (32 ∷ s)) (
        read_vector_rule fuel [] _ _ (read_sign [] _ 91 solid_91)
        ∙ read_items-print_items fuel (codes "[") [] x xs s enough bracket_more holds)
