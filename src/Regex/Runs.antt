-- ===== src/Regex/Runs.antt =====
-- What the matcher does on texts that are known to match: runs of a class, single characters and
-- marks, and the first place where a search can succeed.
use extractor.Base.{
  ℕ, suc, ◌+◌, ◌≡◌, ◌≢◌, refl, Bool, true, none, some, List, [], ◌∷◌, ◌++◌, arith, append-nil,
  Bytes, All, length, ◌==◌, ==_iff,
}
use extractor.Regex.{
  Item, Matcher, or_else, add_mark, run, run_one, run_star, found, search_from, search_regex, lit,
}
use extractor.Regex.Greedy.{Stops}
use extractor.Regex.Needs.{Lacks}

-- A star takes a whole run of its class.
run_star-All :
    (c : ℕ → Bool) (k : Matcher) (p q : ℕ) (w rest : Bytes) {r : ℕ × List ℕ}
    → All (λ x. c x ≡ true) w
    → Stops c rest
    → q ≡ p + length w
    → k q rest ≡ some r
    → run_star c k p (w ++ rest) ≡ some r
unfolding run_star or_else
run_star-All c k p q [] [] all stops place hit =
    let same : q ≡ p = omega (arith, place) in rw same at hit
run_star-All c k p q [] (x ∷ rest) all stops place hit =
    let same : q ≡ p = omega (arith, place) in rw stops (rw same at hit)
run_star-All c k p q (x ∷ w) rest all stops place hit =
    rw (all.0, run_star-All c k (suc p) q w rest all.1 stops (omega (arith, place)) hit) refl

-- One step for each kind of item
pub star_step :
    (c : ℕ → Bool) (r : List Item) (p q : ℕ) (w rest : Bytes) {a : ℕ × List ℕ}
    → All (λ x. c x ≡ true) w
    → Stops c rest
    → q ≡ p + length w
    → run r q rest ≡ some a
    → run (Item.star c ∷ r) p (w ++ rest) ≡ some a
unfolding run
star_step c r p q w rest all stops place hit = run_star-All c (run r) p q w rest all stops place hit

pub last_star_step :
    (c : ℕ → Bool) (r : List Item) (p q : ℕ) (w : Bytes) {a : ℕ × List ℕ}
    → All (λ x. c x ≡ true) w
    → q ≡ p + length w
    → run r q [] ≡ some a
    → run (Item.star c ∷ r) p w ≡ some a
last_star_step c r p q w all place hit =
    rw (← append-nil w) (star_step c r p q w [] all tt place hit)

pub lit_step :
    (c : ℕ) (r : List Item) (p : ℕ) (rest : Bytes) {a : ℕ × List ℕ}
    → run r (suc p) rest ≡ some a
    → run (lit c ∷ r) p (c ∷ rest) ≡ some a
unfolding run run_one
lit_step c r p rest hit = let same : (c == c) ≡ true = (==_iff c c).1 refl in rw same hit

pub mark_step :
    (r : List Item) (p : ℕ) (xs : Bytes) {e : ℕ} {ms : List ℕ}
    → run r p xs ≡ some (e, ms)
    → run (Item.mark ∷ r) p xs ≡ some (e, p ∷ ms)
unfolding run add_mark
mark_step r p xs hit = rw hit refl

pub end_step : (p : ℕ) (xs : Bytes) → run [] p xs ≡ some (p, [])
unfolding run
end_step p xs = refl

module _ (c : ℕ) (r : List Item) where
  lit_miss : (x p : ℕ) (xs : Bytes) → x ≢ c → run (lit c ∷ r) p (x ∷ xs) ≡ none
  unfolding run run_one
  lit_miss x p xs differs = ground (arith, differs)

  search_from-Lacks :
      (p q : ℕ) (before xs : Bytes) {e : ℕ} {ms : List ℕ}
      → Lacks c before
      → q ≡ p + length before
      → run (lit c ∷ r) q (c ∷ xs) ≡ some (e, ms)
      → search_from (lit c ∷ r) p (before ++ c ∷ xs)
        ≡ some (record { first = q; second = e; marks = ms })
  unfolding search_from
  search_from-Lacks p q [] xs lacks place hit =
      let same : p ≡ q = omega (arith, place) in rw same (rw (hit, found) refl)
  search_from-Lacks p q (x ∷ before) xs lacks place hit =
      rw (lit_miss x p (before ++ c ∷ xs) lacks.0, found)
        (search_from-Lacks (suc p) q before xs lacks.1 (omega (arith, place)) hit)

  -- A search for a pattern with a leading character succeeds at the first place of that character
  -- where the pattern matches there.
  pub search_regex-Lacks :
      (before xs : Bytes) {e : ℕ} {ms : List ℕ}
      → Lacks c before
      → run (lit c ∷ r) (length before) (c ∷ xs) ≡ some (e, ms)
      → search_regex (lit c ∷ r) (before ++ c ∷ xs)
        ≡ some (record { first = length before; second = e; marks = ms })
  unfolding search_regex
  search_regex-Lacks before xs lacks hit =
      search_from-Lacks 0 (length before) before xs lacks (omega arith) hit
