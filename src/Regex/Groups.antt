-- ===== src/Regex/Groups.antt =====
-- The part of `std::regex` (ECMAScript grammar) with groups that are optional or repeated: a
-- backtracking, greedy matcher whose rest is a continuation.
use extractor.Base.{
  ℕ, zero, suc, ◌==◌, Bool, Option, none, some, [], ◌∷◌, Bytes, Dict, if◌then◌else◌, length, slice,
  lookup, nat_key,
}

pub data Pattern : Type 0 where
  empty : Pattern
  char : (ℕ → Bool) → Pattern
  seq : Pattern → Pattern → Pattern
  maybe many : Pattern → Pattern
  group : ℕ → Pattern → Pattern

-- The groups that took part in the match, each with its ends; the latest match of a group is first.
abbrev pub Groups : Type 0
Groups = Dict ℕ (ℕ × ℕ)

abbrev pub Found : Type 0
Found = Option (ℕ × Groups)

-- A position, the text from it on, and the groups so far
abbrev pub Rest : Type 0
Rest = ℕ → Bytes → Groups → Found

unfoldable pub or_found : Found → Found → Found
or_found (some r) other = some r
or_found none other = other

unfoldable pub match_char : (ℕ → Bool) → Rest → Rest
match_char c k p [] gs = none
match_char c k p (x ∷ xs) gs = if c x then k (suc p) xs gs else none

unfoldable pub match_maybe : (Rest → Rest) → Rest → Rest
unfolding or_found
match_maybe inner k p xs gs = or_found (inner k p xs gs) (k p xs gs)

-- A round that reads nothing is no further round, so there are at most as many as bytes are left.
unfoldable pub match_many : (Rest → Rest) → ℕ → Rest → Rest
unfolding or_found
match_many inner zero k p xs gs = k p xs gs
match_many inner (suc rounds) k p xs gs =
    or_found (inner (λ q ys hs. if q == p then none else match_many inner rounds k q ys hs) p xs gs)
      (k p xs gs)

unfoldable pub match_pattern : Pattern → Rest → Rest
unfolding match_char match_maybe match_many
match_pattern Pattern.empty k = k
match_pattern (Pattern.char c) k = match_char c k
match_pattern (Pattern.seq a b) k = match_pattern a (match_pattern b k)
match_pattern (Pattern.maybe a) k = match_maybe (match_pattern a) k
match_pattern (Pattern.many a) k = λ p xs gs. match_many (match_pattern a) (length xs) k p xs gs
match_pattern (Pattern.group n a) k =
    λ p xs gs. match_pattern a (λ q ys hs. k q ys ((n, (p, q)) ∷ hs)) p xs gs

abbrev pub accept : Rest
accept p xs gs = some (p, gs)

-- `std::regex_search(text, matches, pattern)`: the groups of the leftmost match
unfoldable pub search_at : Pattern → ℕ → Bytes → Found
unfolding match_pattern or_found
search_at r p [] = match_pattern r accept p [] []
search_at r p (x ∷ xs) = or_found (match_pattern r accept p (x ∷ xs) []) (search_at r (suc p) xs)

unfoldable pub search_groups : Pattern → Bytes → Found
unfolding search_at
search_groups r text = search_at r 0 text

-- `matches[n]` as a string; a group that took no part is empty.
unfoldable pub group_text : ℕ → Groups → Bytes → Bytes
unfolding lookup
group_text n gs text = elim (lookup n gs) [ some (a, b) ↦ slice a b text | none ↦ [] ]
