-- ===== src/Streams.antt =====
-- libwm/algorithm.h: how containers and pairs are printed.
pub mod Input
pub mod Words
pub mod RoundTrip
pub mod Pairs
pub mod Sets
pub mod Endless
use extractor.Base.{
  ℕ, Bool, true, false, List, [], ◌∷◌, ◌++◌, Bytes, codes, to_string, if◌then◌else◌,
}

-- The items with ` , ` before each but the first; the flag is `isFirstElement`.
unfoldable pub print_items {ℓ} : {A : Type ℓ} → (A → Bytes) → Bool → List A → Bytes
print_items print first [] = []
print_items print first (x ∷ xs) =
    (if first then [] else codes " , ") ++ (print x ++ print_items print false xs)

-- `operator<<` of a `vector` and of a `set`
unfoldable pub print_list {ℓ} : {A : Type ℓ} → (A → Bytes) → List A → Bytes
unfolding print_items
print_list print xs = codes "[ " ++ (print_items print true xs ++ codes " ]")

-- `operator<<` of a `pair` of numbers
unfoldable pub print_pair : ℕ × ℕ → Bytes
unfolding to_string
print_pair (first, second) =
    codes "( " ++ (to_string first ++ (codes " , " ++ (to_string second ++ codes " )")))

-- `operator<<` of a `map`, whose items are pairs
unfoldable pub print_map {ℓ} : {K V : Type ℓ} → (K × V → Bytes) → List (K × V) → Bytes
unfolding print_items
print_map print m = codes "[ " ++ (print_items print true m ++ codes " ]")

-- The items with `, ` before each but the first
unfoldable pub print_shared_items {ℓ} : {A : Type ℓ} → (A → Bytes) → Bool → List A → Bytes
print_shared_items print first [] = []
print_shared_items print first (x ∷ xs) =
    (if first then [] else codes ", ") ++ (print x ++ print_shared_items print false xs)

-- `operator<<` of a vector of shared pointers, given what they point to
unfoldable pub print_shared_list {ℓ} : {A : Type ℓ} → (A → Bytes) → List A → Bytes
unfolding print_shared_items
print_shared_list print xs = codes " [" ++ (print_shared_items print true xs ++ codes " ]")

-- `wm::keys` and `wm::values`
unfoldable pub keys {ℓ} : {K V : Type ℓ} → List (K × V) → List K
keys [] = []
keys ((k, v) ∷ m) = k ∷ keys m

unfoldable pub values {ℓ} : {K V : Type ℓ} → List (K × V) → List V
values [] = []
values ((k, v) ∷ m) = v ∷ values m
