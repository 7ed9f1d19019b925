-- ===== src/Streams/Pairs.antt =====
-- libwm/algorithm.h: the reader of a pair of numbers, on numbers of any size and sign.
use extractor.Base.{
  ℕ, ◌-◌, ◌%◌, ◌^◌, ◌≡◌, refl, ◌∙◌, Bool, true, false, inl, inr, [], ◌∷◌, ◌++◌, Bytes, codes,
  to_string, ltb, bytes_eq, if◌then◌else◌, Bool-cases,
}
use extractor.Streams.Input.{
  InStream, at, read_word, read_number, read_first, read_second, read_pair, is_good, unread,
}
use extractor.Streams.Words.{with_rest, numeral, read_number-space, read_number-numeral}
use extractor.Streams.RoundTrip.{
  space_32, digit_32, solid_40, solid_41, solid_44, read_sign, read_pair_rule, read_first_rule,
  read_second_rule,
}

-- The text of a number with a minus sign or without one
abbrev pub signed : Bool → ℕ → Bytes
signed true n = b'-' ∷ to_string n
signed false n = to_string n

-- A number of a `size_t`, and what a minus sign makes of it
abbrev pub wrapped : Bool → ℕ → ℕ
wrapped true n = (2 ^ 64 - n) % 2 ^ 64
wrapped false n = n

-- A stream whose `failbit` is set
abbrev pub failed : Bytes → InStream
failed s = record { rest = s; eof = false; fail = true }

abbrev pub behind_first : Bool → ℕ → Bytes → Bytes
behind_first negative b s = codes " , " ++ (signed negative b ++ (codes " ) " ++ s))

abbrev pub pair_text : Bool → Bool → ℕ → ℕ → Bytes → Bytes
pair_text negative negative' a b s =
    codes " ( " ++ (signed negative a ++ behind_first negative' b s)

signed_read :
    (negative : Bool) (n : ℕ) (s : Bytes)
    → read_number 0 (at (32 ∷ (signed negative n ++ (32 ∷ s))))
      ≡ with_rest (32 ∷ s) (numeral negative n)
signed_read true n s = read_number-space 0 _ 32 space_32 ∙ (read_number-numeral 0 n s 32 digit_32).1
signed_read false n s =
    read_number-space 0 _ 32 space_32 ∙ (read_number-numeral 0 n s 32 digit_32).0

signed_fits :
    (negative : Bool) (n : ℕ) (s : Bytes)
    → ltb 18446744073709551615 n ≡ false
    → read_number 0 (at (32 ∷ (signed negative n ++ (32 ∷ s)))) ≡ (wrapped negative n, at (32 ∷ s))
signed_fits true n s fits = signed_read true n s ∙ rw fits refl
signed_fits false n s fits = signed_read false n s ∙ rw fits refl

signed_fails :
    (negative : Bool) (n : ℕ) (s : Bytes)
    → ltb 18446744073709551615 n ≡ true
    → read_number 0 (at (32 ∷ (signed negative n ++ (32 ∷ s))))
      ≡ (18446744073709551615, failed (32 ∷ s))
signed_fails negative n s large = signed_read negative n s ∙ rw large refl

first_fails :
    (p : ℕ × ℕ) (x : ℕ) (in1 : InStream) (s : Bytes)
    → read_number 0 in1 ≡ (x, failed s)
    → read_first p (codes "(") in1 ≡ (p, failed s)
unfolding read_first read_word is_good unread bytes_eq
first_fails p x in1 s number = rw number refl

second_fails :
    (p : ℕ × ℕ) (first x : ℕ) (in3 : InStream) (s : Bytes)
    → read_number 0 in3 ≡ (x, failed s)
    → read_second p first (codes ",") in3 ≡ (p, failed s)
unfolding read_second read_word is_good unread bytes_eq
second_fails p first x in3 s number = rw number refl

-- What stands behind the comma
second_read :
    (p : ℕ × ℕ) (first : ℕ) (negative : Bool) (b : ℕ) (s : Bytes)
    → read_second p first (codes ",") (at (32 ∷ (signed negative b ++ (codes " ) " ++ s)))) ≡ (
        if ltb 18446744073709551615 b
        then (p, failed (codes " ) " ++ s))
        else ((first, wrapped negative b), at (32 ∷ s)))
second_read p first negative b s = elim (Bool-cases (ltb 18446744073709551615 b)) [
  | inl large ↦ rw large (second_fails p first _ _ _ (signed_fails negative b _ large))
  | inr fits ↦ rw fits (
      read_second_rule p first (wrapped negative b) _ _ _ _ (signed_fits negative b _ fits)
        (read_sign (codes ",") s 41 solid_41))
]

-- A pair is read with both of its numbers where a `size_t` holds them: a minus sign wraps the
-- number around. A number above the range sets `failbit` and leaves the pair as it was, and the
-- stream stays behind that number.
pub read_pair-numerals :
    (p : ℕ × ℕ) (negative negative' : Bool) (a b : ℕ) (s : Bytes)
    → read_pair p (at (pair_text negative negative' a b s)) ≡ (
        if ltb 18446744073709551615 a
        then (p, failed (behind_first negative' b s))
        else if ltb 18446744073709551615 b
        then (p, failed (codes " ) " ++ s))
        else ((wrapped negative a, wrapped negative' b), at (32 ∷ s)))
read_pair-numerals p negative negative' a b s =
    let opened = read_sign [] (signed negative a ++ behind_first negative' b s) 40 solid_40 in
    elim (Bool-cases (ltb 18446744073709551615 a)) [
      | inl large ↦
          rw large (
            read_pair_rule p p _ _ _ opened (first_fails p _ _ _ (signed_fails negative a _ large)))
      | inr fits ↦
          let comma =
            read_sign (codes "(") (signed negative' b ++ (codes " ) " ++ s)) 44 solid_44 in
          rw fits (
            read_pair_rule p _ _ _ _ opened (
              read_first_rule p _ (wrapped negative a) _ _ _ _ _ (signed_fits negative a _ fits)
                comma (second_read p (wrapped negative a) negative' b s)))
    ]
