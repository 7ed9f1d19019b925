-- ===== src/Util.antt =====
-- libwm/util.cc: the string helpers.
pub mod Replace
pub mod Trim
use extractor.Base.{
  ℕ, zero, suc, ◌+◌, Bool, true, false, ◌&&◌, Option, none, some, [], ◌∷◌, ◌++◌, Bytes, ◌==◌,
  if◌then◌else◌, is_space, is_empty, length, take, drop,
}

-- `leftTrim`: erase up to the first character that is no space
unfoldable pub left_trim : Bytes → Bytes
left_trim [] = []
left_trim (c ∷ s) = if is_space c then left_trim s else c ∷ s

-- `rightTrim`: erase behind the last character that is no space
unfoldable pub right_trim : Bytes → Bytes
right_trim [] = []
right_trim (c ∷ s) = let rest = right_trim s in if is_empty rest && is_space c then [] else c ∷ rest

-- `trim`
unfoldable pub trim : Bytes → Bytes
unfolding left_trim right_trim
trim s = right_trim (left_trim s)

unfoldable pub is_prefix : Bytes → Bytes → Bool
is_prefix [] s = true
is_prefix (x ∷ xs) [] = false
is_prefix (x ∷ xs) (y ∷ ys) = x == y && is_prefix xs ys

-- The first place of `search` in `s`, where `pos` is the position of `s` in the subject.
unfoldable pub find_in : Bytes → ℕ → Bytes → Option ℕ
unfolding is_prefix
find_in search pos [] = if is_empty search then some pos else none
find_in search pos (c ∷ s) =
    let later = find_in search (suc pos) s in if is_prefix search (c ∷ s) then some pos else later

-- `subject.find(search, pos)`
find_drop : Bytes → Bytes → ℕ → ℕ → Option ℕ
unfolding find_in
find_drop search s pos zero = find_in search pos s
find_drop search [] pos (suc n) = none
find_drop search (c ∷ s) pos (suc n) = find_drop search s (suc pos) n

unfoldable pub find : Bytes → Bytes → ℕ → Option ℕ
unfolding find_drop
find subject search pos = find_drop search subject 0 pos

-- `replace(subject, search, replace)` on fuel; `none` means that the fuel ran out.
unfoldable pub replace_loop : ℕ → Bytes → Bytes → Bytes → ℕ → Option Bytes
unfolding find
replace_loop zero subject search by pos = none
replace_loop (suc fuel) subject search by pos = elim (find subject search pos) [
  | none ↦ some subject
  | some p ↦
      replace_loop fuel (take p subject ++ (by ++ drop (p + length search) subject)) search by
        (p + length by)
]
