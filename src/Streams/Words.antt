-- ===== src/Streams/Words.antt =====
-- libwm/algorithm.h: words and numbers on a stream.
use extractor.Base.{
  if◌then◌else◌, ◌%◌, ◌^◌, ◌-◌, ℕ, suc, ◌≤◌, ◌≡◌, ◌≢◌, refl, ◌∙◌, Bool, true, false, not, [], ◌∷◌,
  ◌++◌, arith, Bytes, All, ltb, ◌==◌, is_space, is_digit, digits_value, digits_of, to_string,
  digits_value-digits_of, digits_of-nonempty, digits_of-All, to_string_digits,
}
use extractor.Streams.Input.{
  InStream, at, take_while, drop_while, behind, skip_spaces, read_word, read_number, read_digits,
  read_signed, number_value, is_good,
}

-- A word that `in >> token` reads as a whole
abbrev pub IsToken : Bytes → Type 0
IsToken [] = ⊥
IsToken (c ∷ w) = All (λ d. not (is_space d) ≡ true) (c ∷ w)

abbrev pub IsNumeral : Bytes → Type 0
IsNumeral = All (λ d. is_digit d ≡ true)

module _ (p : ℕ → Bool) where
  pub take_while-append :
      (w : Bytes) (c : ℕ) (s : Bytes)
      → All (λ d. p d ≡ true) w
      → p c ≡ false
      → take_while p (w ++ c ∷ s) ≡ w
  unfolding take_while
  take_while-append [] c s h e = rw e refl
  take_while-append (d ∷ w) c s h e = rw (h.0, take_while-append w c s h.1 e) refl

  pub drop_while-append :
      (w : Bytes) (c : ℕ) (s : Bytes)
      → All (λ d. p d ≡ true) w
      → p c ≡ false
      → drop_while p (w ++ c ∷ s) ≡ c ∷ s
  unfolding drop_while
  drop_while-append [] c s h e = rw e refl
  drop_while-append (d ∷ w) c s h e = rw (h.0, drop_while-append w c s h.1 e) refl

pub read_word-space :
    (token s : Bytes) (c : ℕ)
    → is_space c ≡ true
    → read_word token (at (c ∷ s)) ≡ read_word token (at s)
unfolding read_word skip_spaces is_good
read_word-space token s c space = rw (space, read_word, skip_spaces) refl

not-false : (b : Bool) → not b ≡ true → b ≡ false
not-false true h = cc
not-false false h = refl

pub read_word-append :
    (token w s : Bytes) (c : ℕ)
    → IsToken w
    → is_space c ≡ true
    → read_word token (at (w ++ c ∷ s)) ≡ (w, at (c ∷ s))
unfolding read_word skip_spaces is_good behind
read_word-append token [] s c h space = elim h [ ]
read_word-append token (d ∷ w) s c h space =
    let p : ℕ → Bool = λ a. not (is_space a) in
    let ends : p c ≡ false = rw space refl in
    let front = take_while-append p (d ∷ w) c s h ends in
    let back = drop_while-append p (d ∷ w) c s h ends in
    rw (not-false (is_space d) h.0, read_word, skip_spaces) (rw (front, back) refl)

-- The value of a number that stands on the stream, and whether it is too large
abbrev pub numeral : Bool → ℕ → ℕ × Bool
numeral negative n =
    if ltb 18446744073709551615 n
    then (18446744073709551615, true)
    else ((if negative then (2 ^ 64 - n) % 2 ^ 64 else n), false)

-- A number and the state of the stream behind it
abbrev pub with_rest : Bytes → ℕ × Bool → ℕ × InStream
with_rest s v = (v.0, record { rest = s; eof = false; fail = v.1 })

number_value-numeral :
    (negative : Bool) (ds : Bytes)
    → ds ≢ []
    → number_value negative ds ≡ numeral negative (digits_value 0 ds)
unfolding number_value
number_value-numeral negative [] some_digit = absurd (some_digit refl)
number_value-numeral negative (d ∷ ds) some_digit = refl

digits_front :
    (negative : Bool) (ds s : Bytes) (c : ℕ)
    → IsNumeral ds
    → is_digit c ≡ false
    → ds ≢ []
    → read_digits negative (ds ++ c ∷ s) ≡ with_rest (c ∷ s) (numeral negative (digits_value 0 ds))
unfolding read_digits behind
digits_front negative ds s c h ends some_digit =
    let front = take_while-append is_digit ds c s h ends in
    let back = drop_while-append is_digit ds c s h ends in
    rw (front, back, number_value-numeral negative ds some_digit) refl

read_signed-IsNumeral :
    (ds s : Bytes) (c : ℕ)
    → IsNumeral ds
    → ds ≢ []
    → read_signed (ds ++ c ∷ s) ≡ read_digits false (ds ++ c ∷ s)
unfolding read_signed is_digit
read_signed-IsNumeral [] s c h some_digit = absurd (some_digit refl)
read_signed-IsNumeral (d ∷ ds) s c h some_digit =
    let minus : (d == b'-') ≡ false = ground (arith, h.0) in
    let plus : (d == b'+') ≡ false = ground (arith, h.0) in rw (minus, plus) refl

read_number_steps :
    (old d : ℕ) (s : Bytes)
    → is_space d ≡ false
    → read_number old (at (d ∷ s)) ≡ read_signed (d ∷ s)
unfolding read_number skip_spaces is_good
read_number_steps old d s solid = rw (solid, read_number, skip_spaces) refl

pub read_number-space :
    (n : ℕ) (s : Bytes) (c : ℕ)
    → is_space c ≡ true
    → read_number n (at (c ∷ s)) ≡ read_number n (at s)
unfolding read_number skip_spaces is_good
read_number-space n s c space = rw (space, read_number, skip_spaces) refl

digit-solid : (d : ℕ) → is_digit d ≡ true → is_space d ≡ false
unfolding is_digit is_space
digit-solid d h = ground (arith, h)

digits_read :
    (old : ℕ) (ds s : Bytes) (c : ℕ)
    → IsNumeral ds
    → is_digit c ≡ false
    → ds ≢ []
    → read_number old (at (ds ++ c ∷ s)) ≡ with_rest (c ∷ s) (numeral false (digits_value 0 ds))
digits_read old [] s c h ends some_digit = absurd (some_digit refl)
digits_read old (d ∷ ds) s c h ends some_digit =
    read_number_steps old d (ds ++ c ∷ s) (digit-solid d h.0)
    ∙ read_signed-IsNumeral (d ∷ ds) s c h some_digit
    ∙ digits_front false (d ∷ ds) s c h ends some_digit

read_number_minus : (old : ℕ) (s : Bytes) → read_number old (at (b'-' ∷ s)) ≡ read_digits true s
unfolding read_number read_signed skip_spaces is_good is_space
read_number_minus old s = refl

-- The digits of a number behind a sign or none: a number above the range reads as the largest one
-- and sets `failbit`, and a minus sign wraps the number around.
pub read_number-numeral :
    (old n : ℕ) (s : Bytes) (c : ℕ)
    → is_digit c ≡ false
    → (read_number old (at (to_string n ++ c ∷ s)) ≡ with_rest (c ∷ s) (numeral false n))
      × (read_number old (at (b'-' ∷ (to_string n ++ c ∷ s))) ≡ with_rest (c ∷ s) (numeral true n))
read_number-numeral old n s c ends =
    let ds = digits_of (suc n) n in
    let value = digits_value-digits_of (suc n) n (omega arith) in
    let all = digits_of-All (suc n) n in
    rw (to_string_digits n) (
      digits_read old ds s c all ends (digits_of-nonempty n n) ∙ rw value refl,
      read_number_minus old (ds ++ c ∷ s)
          ∙ digits_front true ds s c all ends (digits_of-nonempty n n)
          ∙ rw value refl,
    )

pub read_number-to_string :
    (old n : ℕ) (s : Bytes) (c : ℕ)
    → n ≤ 18446744073709551615
    → is_digit c ≡ false
    → read_number old (at (to_string n ++ c ∷ s)) ≡ (n, at (c ∷ s))
read_number-to_string old n s c fits ends =
    let below : ltb 18446744073709551615 n ≡ false = ground arith in
    (read_number-numeral old n s c ends).0 ∙ rw below refl
