-- ===== src/Base/Decimal.antt =====
-- The decimal digits that `std::to_string` makes, and the number that digits spell.
use Prim.Native.Nat.{ℕ, zero, suc, ◌+◌, ◌-◌, ◌*◌, ◌/◌, ◌%◌, ◌<◌, ◌≤◌}
use mathlib.Core.Path.{◌≡◌, refl, ap, ◌∙◌}
use mathlib.Core.Logic.{◌≢◌, inl, inr}
use mathlib.Core.Bool.{true}
use mathlib.Core.List.{[], ◌∷◌, ◌++◌}
use native.Mathlib.Omega.{arith}
use extractor.Base.Tests.{ltb, Bool-cases}
use extractor.Base.Lists.{All, All-append}
use extractor.Base.Text.{Bytes, digits_value, digits_of, to_string, is_digit}

digits_value-append :
    (n : ℕ) (s : Bytes) (c : ℕ) → digits_value n (s ++ c ∷ []) ≡ digits_value n s * 10 + (c - b'0')
unfolding digits_value
digits_value-append n [] c = refl
digits_value-append n (x ∷ s) c = digits_value-append (n * 10 + (x - b'0')) s c

pub digits_value-digits_of : (fuel n : ℕ) → n < fuel → digits_value 0 (digits_of fuel n) ≡ n
unfolding digits_value digits_of
digits_value-digits_of zero n h = absurd (omega arith)
digits_value-digits_of (suc fuel) n h = elim (Bool-cases (ltb n 10)) [
  | inl small ↦ rw small (omega arith)
  | inr large ↦
      let big : 10 ≤ n = ground arith in
      let less : n / 10 < fuel = omega arith in
      let front = digits_value-digits_of fuel (n / 10) less in
      rw large (
        digits_value-append 0 (digits_of fuel (n / 10)) (b'0' + n % 10)
        ∙ ap (λ v. v * 10 + (b'0' + n % 10 - b'0')) front
        ∙ omega arith)
]

append_last-nonempty : (s : Bytes) (c : ℕ) → s ++ c ∷ [] ≢ []
append_last-nonempty [] c e = cc
append_last-nonempty (x ∷ s) c e = cc

pub digits_of-nonempty : (fuel n : ℕ) → digits_of (suc fuel) n ≢ []
unfolding digits_of
digits_of-nonempty fuel n = elim (Bool-cases (ltb n 10)) [
  | inl small ↦ rw small (append_last-nonempty [] (b'0' + n))
  | inr large ↦ rw large (append_last-nonempty (digits_of fuel (n / 10)) (b'0' + n % 10))
]

pub to_string_digits : (n : ℕ) → to_string n ≡ digits_of (suc n) n
unfolding to_string
to_string_digits n = refl

pub digits_of-All : (fuel n : ℕ) → All (λ d. is_digit d ≡ true) (digits_of fuel n)
unfolding digits_of is_digit
digits_of-All zero n = tt
digits_of-All (suc fuel) n = elim (Bool-cases (ltb n 10)) [
  | inl small ↦ rw small (ground arith)
  | inr large ↦ rw large (
      All-append (λ d. is_digit d ≡ true) (digits_of fuel (n / 10)) ((b'0' + n % 10) ∷ [])
        (digits_of-All fuel (n / 10)) (ground arith))
]
