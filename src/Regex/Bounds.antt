-- ===== src/Regex/Bounds.antt =====
-- The positions of a match and its marks.
use mathlib.Core.Path.{subst}
use native.Mathlib.Nat.{zero-add}
use extractor.Base.{
  ℕ, zero, suc, ◌+◌, ◌≤◌, ◌≡◌, Bool, Option, none, some, inl, inr, List, [], ◌∷◌, arith, Bytes,
  length, All, All-imp, Bool-cases, get_or, ◌==◌,
}
use extractor.Regex.{
  Item, Match, Reply, Matcher, or_else, add_mark, run_begin, run_one, run_opt, run_star, run, found,
  search_from, search_regex, mark_at,
}

abbrev Between : ℕ → ℕ → ℕ → Type 0
Between lo hi m = (lo ≤ m) × (m ≤ hi)

-- A reply from position `p` with `n` bytes left.
abbrev Within : ℕ → ℕ → Reply → Type 0
Within p n none = Unit
Within p n (some (e, ms)) = Between p (p + n) e × All (Between p e) ms

abbrev Bounded : Matcher → Type 0
Bounded k = (p : ℕ) (xs : Bytes) → Within p (length xs) (k p xs)

-- The marks of a later position are marks of an earlier one.
Within-earlier : (p n : ℕ) (r : Reply) → Within (suc p) n r → Within p (suc n) r
Within-earlier p n none h = tt
Within-earlier p n (some (e, ms)) h =
    (omega arith, All-imp (Between (suc p) e) (Between p e) (λ a q. omega arith) ms h.1)

Within-or_else : (p n : ℕ) (r s : Reply) → Within p n r → Within p n s → Within p n (or_else r s)
unfolding or_else
Within-or_else p n none s hr hs = hs
Within-or_else p n (some r) s hr hs = hr

run_star-Bounded : (c : ℕ → Bool) (k : Matcher) → Bounded k → Bounded (run_star c k)
unfolding run_star
run_star-Bounded c k h p [] = h p []
run_star-Bounded c k h p (x ∷ xs) = elim (Bool-cases (c x)) [
  | inl hit ↦ rw hit (
      Within-or_else p _ _ _ (Within-earlier p (length xs) _ (run_star-Bounded c k h (suc p) xs))
        (h p (x ∷ xs)))
  | inr miss ↦ rw miss (h p (x ∷ xs))
]

run_opt-Bounded : (c : ℕ → Bool) (k : Matcher) → Bounded k → Bounded (run_opt c k)
unfolding run_opt
run_opt-Bounded c k h p [] = h p []
run_opt-Bounded c k h p (x ∷ xs) = elim (Bool-cases (c x)) [
  | inl hit ↦
      rw hit (Within-or_else p _ _ _ (Within-earlier p (length xs) _ (h (suc p) xs)) (h p (x ∷ xs)))
  | inr miss ↦ rw miss (h p (x ∷ xs))
]

run_one-Bounded : (c : ℕ → Bool) (k : Matcher) → Bounded k → Bounded (run_one c k)
unfolding run_one
run_one-Bounded c k h p [] = tt
run_one-Bounded c k h p (x ∷ xs) = elim (Bool-cases (c x)) [
  | inl hit ↦ rw hit (Within-earlier p (length xs) _ (h (suc p) xs))
  | inr miss ↦ rw miss tt
]

add_mark-Within : (p n : ℕ) (r : Reply) → Within p n r → Within p n (add_mark p r)
unfolding add_mark
add_mark-Within p n none h = tt
add_mark-Within p n (some (e, ms)) h = (h.0, (omega arith, h.1))

run-Bounded : (r : List Item) → Bounded (run r)
unfolding run
run-Bounded [] p xs = (omega arith, tt)
run-Bounded (Item.begin ∷ r) p xs = elim (Bool-cases (p == 0)) [
  | inl start ↦ rw (start, run_begin) (run-Bounded r p xs)
  | inr later ↦ rw (later, run_begin) tt
]
run-Bounded (Item.end ∷ r) p [] = run-Bounded r p []
run-Bounded (Item.end ∷ r) p (x ∷ xs) = tt
run-Bounded (Item.mark ∷ r) p xs = add_mark-Within p (length xs) _ (run-Bounded r p xs)
run-Bounded (Item.one c ∷ r) p xs = run_one-Bounded c (run r) (run-Bounded r) p xs
run-Bounded (Item.opt c ∷ r) p xs = run_opt-Bounded c (run r) (run-Bounded r) p xs
run-Bounded (Item.star c ∷ r) p xs = run_star-Bounded c (run r) (run-Bounded r) p xs

-- Where a search finds a match, it and every mark lie in the line.
pub record InLine (m : Match) (n : ℕ) : Type 0 where
  pub ordered : m.first ≤ m.second
  pub fits : m.second ≤ n
  pub marked : All (Between m.first m.second) m.marks

Found : Option Match → ℕ → Type 0
Found none n = Unit
Found (some m) n = InLine m n

found-Found :
    (p n : ℕ) (r : Reply) (later : Option Match)
    → Within p n r
    → Found later (p + n)
    → Found (found p r later) (p + n)
unfolding found Found
found-Found p n none later h hl = hl
found-Found p n (some (e, ms)) later h hl = record {
  ordered = omega arith;
  fits = omega arith;
  marked = h.1;
}

search_from-Found :
    (r : List Item) (p : ℕ) (xs : Bytes) → Found (search_from r p xs) (p + length xs)
unfolding search_from Found
search_from-Found r p [] = found-Found p 0 (run r p []) none (run-Bounded r p []) tt
search_from-Found r p (x ∷ xs) =
    let e : suc p + length xs ≡ p + suc (length xs) = omega arith in
    found-Found p (suc (length xs)) (run r p (x ∷ xs)) (search_from r (suc p) xs)
      (run-Bounded r p (x ∷ xs))
      (subst (Found (search_from r (suc p) xs)) e (search_from-Found r (suc p) xs))

pub search_regex-InLine :
    (r : List Item) (line : Bytes) {m : Match}
    → search_regex r line ≡ some m
    → InLine m (length line)
unfolding search_regex Found
search_regex-InLine r line {m = m} e =
    let h : Found (some m) (0 + length line) = rw e at (search_from-Found r 0 line) in
    rw zero-add at h

get_or-le : (ms : List ℕ) (i lo hi : ℕ) → All (Between lo hi) ms → get_or ms i 0 ≤ hi
get_or-le [] i lo hi h = omega arith
get_or-le (m ∷ ms) zero lo hi h = omega arith
get_or-le (m ∷ ms) (suc i) lo hi h = get_or-le ms i lo hi h.1

pub mark_at-le : (m : Match) (i n : ℕ) → InLine m n → mark_at m i ≤ n
mark_at-le m i n h =
    let marks_le : mark_at m i ≤ m.second = get_or-le m.marks i m.first m.second h.marked in
    omega (arith, marks_le, h.fits)
