-- ===== src/Base/Maps.antt =====
-- `std::map` and `std::set` as association lists in key order, over any type of keys.
use Prim.Native.Nat.{ℕ}
use mathlib.Core.Path.{◌≡◌, refl, subst}
use mathlib.Core.Logic.{◌↔◌, inl, inr}
use mathlib.Core.Bool.{Bool, true, false, ◌||◌}
use mathlib.Core.Option.{Option, none, some}
use mathlib.Core.List.{List, [], ◌∷◌}
use native.Mathlib.Omega.{arith}
use extractor.Base.Tests.{ltb, ◌==◌, if◌then◌else◌, ==_iff, Bool-cases, Option-cases}
use extractor.Base.Text.{Bytes, bytes_eq, bytes_less, bytes_eq_iff}
use extractor.Base.Lists.{All}

pub record Key {ℓ} (K : Type ℓ) : Type ℓ where
  pub beq : K → K → Bool
  pub less : K → K → Bool
  pub beq_iff : (a b : K) → (beq a b ≡ true) ↔ (a ≡ b)

instance abbrev pub nat_key : Key ℕ
nat_key = record { beq = λ a b. a == b; less = ltb; beq_iff = ==_iff }

instance abbrev pub bytes_key : Key Bytes
bytes_key = record { beq = bytes_eq; less = bytes_less; beq_iff = bytes_eq_iff }

abbrev pub Dict {ℓ} : Type ℓ → Type ℓ → Type ℓ
Dict K V = List (K × V)

module _ {ℓ} {K V : Type ℓ} ⦃key : Key K⦄ where
  -- `m.find(k)`
  unfoldable pub lookup : K → Dict K V → Option V
  lookup k [] = none
  lookup k ((j, v) ∷ m) = if key.beq j k then some v else lookup k m

  -- `m[k]` where a missing key reads as the default value
  unfoldable pub lookup_or : K → V → Dict K V → V
  unfolding lookup
  lookup_or k d m = elim (lookup k m) [ some v ↦ v | none ↦ d ]

  -- `m[k] = v`
  unfoldable pub assign : K → V → Dict K V → Dict K V
  assign k v [] = (k, v) ∷ []
  assign k v ((j, w) ∷ m) =
      if key.beq j k
      then (k, v) ∷ m
      else if key.less k j
      then (k, v) ∷ (j, w) ∷ m
      else (j, w) ∷ assign k v m

  -- `m.emplace(k, v)`: a key that is there keeps its value
  unfoldable pub emplace : K → V → Dict K V → Dict K V
  unfolding lookup assign
  emplace k v m = elim (lookup k m) [ some _ ↦ m | none ↦ assign k v m ]

  pub lookup-assign :
      (k j : K) (v : V) (m : Dict K V)
      → lookup j (assign k v m) ≡ (if key.beq k j then some v else lookup j m)
  unfolding lookup assign
  lookup-assign k j v [] = refl
  lookup-assign k j v ((i, w) ∷ m) =
      ground (arith, key.beq_iff k j, key.beq_iff i k, key.beq_iff i j, lookup-assign k j v m)

  -- A predicate on the entries survives an assignment of an entry that has it.
  pub assign-All :
      (P : K × V → Type ℓ) (k : K) (v : V) (m : Dict K V)
      → P (k, v)
      → All P m
      → All P (assign k v m)
  unfolding assign
  assign-All P k v [] h hs = (h, hs)
  assign-All P k v ((j, w) ∷ m) h hs = elim (Bool-cases (key.beq j k)) [
    | inl same ↦ rw same (h, hs.1)
    | inr other ↦ elim (Bool-cases (key.less k j)) [
      | inl before ↦ rw (other, before) (h, hs)
      | inr after ↦ rw (other, after) (hs.0, assign-All P k v m h hs.1)
    ]
  ]

  pub emplace-All :
      (P : K × V → Type ℓ) (k : K) (v : V) (m : Dict K V)
      → P (k, v)
      → All P m
      → All P (emplace k v m)
  unfolding emplace
  emplace-All P k v m h hs = elim (Option-cases (lookup k m)) [
    | inl absent ↦ rw (absent, emplace) (assign-All P k v m h hs)
    | inr (w, present) ↦ rw (present, emplace) hs
  ]

  -- An entry that a lookup finds has what all entries have.
  pub lookup-All :
      (P : K × V → Type ℓ) (k : K) (m : Dict K V) {v : V} → All P m → lookup k m ≡ some v → P (k, v)
  unfolding lookup
  lookup-All P k [] hs e = cc
  lookup-All P k ((j, w) ∷ m) {v = v} hs e = elim (Bool-cases (key.beq j k)) [
    | inl same ↦
        subst (λ x. P (x, v)) ((key.beq_iff j k).0 same)
          (subst (λ u. P (j, u)) (ground (arith, same)) hs.0)
    | inr other ↦ lookup-All P k m hs.1 (rw other at e)
  ]

module _ {ℓ} {K : Type ℓ} ⦃key : Key K⦄ where
  -- `s.insert(k)` of a `std::set`
  unfoldable pub insert : K → List K → List K
  insert k [] = k ∷ []
  insert k (j ∷ s) =
      if key.beq j k then j ∷ s else if key.less k j then k ∷ j ∷ s else j ∷ insert k s

  unfoldable pub contains : K → List K → Bool
  contains k [] = false
  contains k (j ∷ s) = key.beq j k || contains k s

  pub contains-insert :
      (k j : K) (s : List K) → contains j (insert k s) ≡ (key.beq k j || contains j s)
  unfolding contains insert
  contains-insert k j [] = refl
  contains-insert k j (i ∷ s) =
      ground (arith, key.beq_iff k j, key.beq_iff i k, key.beq_iff i j, contains-insert k j s)

  -- `s.insert(first, last)`
  unfoldable pub insert_all : List K → List K → List K
  unfolding insert
  insert_all [] s = s
  insert_all (k ∷ ks) s = insert_all ks (insert k s)
