-- ===== src/Extractor/Numbers.antt =====
-- extract/cppextractor.cc: `std::stoi` of the number of a callout, against `std::to_string`.
use extractor.Base.{
  ℕ, suc, ◌<◌, ◌≤◌, ◌≡◌, ◌≢◌, refl, true, false, inl, inr, [], ◌∷◌, arith, Bytes, digits_value,
  digits_of, to_string, ltb, if◌then◌else◌, Bool-cases, digits_value-digits_of, digits_of-nonempty,
  to_string_digits, Outcome, ok, fault, out_of_range, ℤ, pos,
}
use extractor.Extractor.Parse.{stoi}

stoi_value :
    (s : Bytes) (n : ℕ) → s ≢ [] → digits_value 0 s ≡ n → n ≤ 2147483647 → stoi s ≡ ok (pos n)
unfolding stoi
stoi_value [] n some_digit value fits = absurd (some_digit refl)
stoi_value (c ∷ s) n some_digit value fits =
    let below : ltb 2147483647 n ≡ false = ground arith in rw (value, stoi, below) refl

stoi_fault :
    (s : Bytes) (n : ℕ)
    → s ≢ []
    → digits_value 0 s ≡ n
    → 2147483647 < n
    → stoi s ≡ fault out_of_range
unfolding stoi
stoi_fault [] n some_digit value large = absurd (some_digit refl)
stoi_fault (c ∷ s) n some_digit value large =
    let above : ltb 2147483647 n ≡ true = ground arith in rw (value, stoi, above) refl

-- The decimal digits of a number are read back where an `int` holds it; above that `std::stoi`
-- throws.
pub stoi-to_string :
    (n : ℕ) → stoi (to_string n) ≡ (if ltb 2147483647 n then fault out_of_range else ok (pos n))
stoi-to_string n = elim (Bool-cases (ltb 2147483647 n)) [
  | inl large ↦ rw large (read stoi_fault (ground arith))
  | inr fits ↦ rw fits (read stoi_value (ground arith))
]
  where
    read :
        {P : ℕ → Type 0} {r : ℕ → Outcome ℤ}
        → ((s : Bytes) (k : ℕ) → s ≢ [] → digits_value 0 s ≡ k → P k → stoi s ≡ r k)
        → P n
        → stoi (to_string n) ≡ r n
    read rule holds = rw (to_string_digits n) (
        rule (digits_of (suc n) n) n (digits_of-nonempty n n)
          (digits_value-digits_of (suc n) n (omega arith)) holds)
