-- ===== src/Base/Results.antt =====
-- Results of code that may throw or leave the defined behaviour of C++.
use mathlib.Core.Path.{◌≡◌, refl}
use mathlib.Core.Bool.{Bool, true, false}
use extractor.Base.Tests.{if◌then◌else◌}

pub data Fault : Type 0 where
  out_of_range : Fault
  undefined : Fault

pub data Outcome {ℓ} (A : Type ℓ) : Type ℓ where
  ok : A → Outcome A
  fault : Fault → Outcome A

module _ {ℓ κ} {A : Type ℓ} {B : Type κ} where
  infixl 5 ◌>>=◌
  -- A fault ends what follows it.
  abbrev pub ◌>>=◌ : Outcome A → (A → Outcome B) → Outcome B
  fault why >>= next = fault why
  ok value >>= next = next value

pub ok-injective {ℓ} : {A : Type ℓ} {a b : A} → ok a ≡ ok b → a ≡ b
ok-injective e = cc

-- A statement about the value that is returned; a fault returns none.
abbrev pub Holds {ℓ κ} : {A : Type ℓ} → (A → Type κ) → Outcome A → Type κ
Holds P (ok a) = P a
Holds P (fault e) = Unit

pub Holds-bind {ℓ κ μ} :
    {A : Type ℓ} {B : Type κ} (P : B → Type μ) (m : Outcome A) (f : A → Outcome B)
    → ((a : A) → m ≡ ok a → Holds P (f a))
    → Holds P (m >>= f)
Holds-bind P (ok a) f h = h a refl
Holds-bind P (fault e) f h = tt

pub Holds-ok {ℓ κ} :
    {A : Type ℓ} (P : A → Type κ) (m : Outcome A) {a : A} → Holds P m → m ≡ ok a → P a
Holds-ok P (ok b) h e = rw (← ok-injective e) h
Holds-ok P (fault f) h e = cc

pub Holds-imp {ℓ κ μ} :
    {A : Type ℓ} (P : A → Type κ) (Q : A → Type μ)
    → ((a : A) → P a → Q a)
    → (m : Outcome A) → Holds P m
    → Holds Q m
Holds-imp P Q f (ok a) h = f a h
Holds-imp P Q f (fault e) h = tt

pub Holds-if {ℓ κ} :
    {A : Type ℓ} (P : A → Type κ) (b : Bool) (m n : Outcome A)
    → Holds P m
    → Holds P n
    → Holds P (if b then m else n)
Holds-if P true m n hm hn = hm
Holds-if P false m n hm hn = hn

-- A value is returned, and the statement holds of it.
abbrev pub Returns {ℓ} : {A : Type ℓ} → (A → Type 0) → Outcome A → Type 0
Returns P (ok a) = P a
Returns P (fault e) = ⊥

pub Returns-bind {ℓ κ} :
    {A : Type ℓ} {B : Type κ} (P : A → Type 0) (Q : B → Type 0) (m : Outcome A) (f : A → Outcome B)
    → Returns P m
    → ((a : A) → P a → Returns Q (f a))
    → Returns Q (m >>= f)
Returns-bind P Q (ok a) f h k = k a h
Returns-bind P Q (fault e) f h k = elim h [ ]

pub Returns-ok {ℓ} :
    {A : Type ℓ} (P : A → Type 0) (m : Outcome A) → Returns P m → (a : A) × (m ≡ ok a) × P a
Returns-ok P (ok a) h = (a, refl, h)
Returns-ok P (fault e) h = elim h [ ]

pub Returns-if {ℓ} :
    {A : Type ℓ} (P : A → Type 0) (b : Bool) (m n : Outcome A)
    → Returns P m
    → Returns P n
    → Returns P (if b then m else n)
Returns-if P true m n hm hn = hm
Returns-if P false m n hm hn = hn

pub Returns-else {ℓ} :
    {A : Type ℓ} (P : A → Type 0) (b : Bool) (m n : Outcome A)
    → b ≡ false
    → Returns P n
    → Returns P (if b then m else n)
Returns-else P b m n other h = rw other h

pub Returns-imp {ℓ} :
    {A : Type ℓ} (P Q : A → Type 0)
    → ((a : A) → P a → Q a)
    → (m : Outcome A) → Returns P m
    → Returns Q m
Returns-imp P Q f (ok a) h = f a h
Returns-imp P Q f (fault e) h = elim h [ ]
