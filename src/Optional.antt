-- ===== src/Optional.antt =====
-- libwm/optional.h: a value that may be missing.
use extractor.Base.{
  Bool, true, false, not, ◌&&◌, Bytes, codes, Key, if◌then◌else◌, Outcome, ok, fault, undefined,
}

-- A value stands there even where it is not valid: it is the one that `T()` makes.
pub record Optional {ℓ} (T : Type ℓ) : Type ℓ where
  pub valid : Bool
  pub value : T

module _ {ℓ} {T : Type ℓ} where
  -- `Optional()`, where `value` is what `T()` makes, and `Optional(value)`
  abbrev pub empty_optional : T → Optional T
  empty_optional value = record { valid = false; value = value }

  abbrev pub optional_of : T → Optional T
  optional_of value = record { valid = true; value = value }

  -- `operator*` and `operator->` with their assertion
  unfoldable pub value_of : Optional T → Outcome T
  value_of o = if o.valid then ok o.value else fault undefined

  -- `operator T&`, which asserts nothing
  unfoldable pub raw_value : Optional T → T
  raw_value o = o.value

  -- `operator<<`
  unfoldable pub print_optional : (T → Bytes) → Optional T → Bytes
  print_optional print o = if o.valid then print o.value else codes "0"

module _ {ℓ} {T : Type ℓ} ⦃key : Key T⦄ where
  -- `operator==` of two optional values, of a value and an optional one, and of an optional one and
  -- a value
  unfoldable pub optional_eq : Optional T → Optional T → Bool
  optional_eq a b = (a.valid && b.valid) && key.beq a.value b.value

  unfoldable pub value_eq : T → Optional T → Bool
  value_eq x b = b.valid && key.beq x b.value

  unfoldable pub optional_eq_value : Optional T → T → Bool
  optional_eq_value a x = a.valid && key.beq a.value x

  -- `operator!=`
  unfoldable pub optional_differs : Optional T → Optional T → Bool
  unfolding optional_eq
  optional_differs a b = not (optional_eq a b)
