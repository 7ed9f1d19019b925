-- ===== src/Regex/Stars.antt =====
-- The matcher over items on runs of characters.
use extractor.Base.{
  ℕ, suc, ◌+◌, ◌≡◌, ◌≢◌, refl, Bool, true, some, List, [], ◌∷◌, ◌++◌, arith, Bytes, length, All,
}
use extractor.Regex.{
  Item, Matcher, or_else, add_mark, run_one, run_star, run, found, search_from, search_regex,
}
use extractor.Regex.Greedy.{Stops}

run_star-greedy :
    (c : ℕ → Bool) (k : Matcher) (w rest : Bytes) (p q : ℕ) (a : ℕ × List ℕ)
    → All (λ d. c d ≡ true) w
    → Stops c rest
    → q ≡ p + length w
    → k q rest ≡ some a
    → run_star c k p (w ++ rest) ≡ some a
unfolding run_star or_else
run_star-greedy c k [] [] p q a hw stops place hit =
    let same : q ≡ p = omega (arith, place) in rw (← same) hit
run_star-greedy c k [] (x ∷ xs) p q a hw stops place hit =
    let same : q ≡ p = omega (arith, place) in rw (stops, ← same) hit
run_star-greedy c k (d ∷ w) rest p q a hw stops place hit =
    rw (hw.0, run_star-greedy c k w rest (suc p) q a hw.1 stops (omega (arith, place)) hit) refl

pub run-stars :
    (c : ℕ → Bool) (r : List Item) (w rest : Bytes) (p q : ℕ) (a : ℕ × List ℕ)
    → All (λ d. c d ≡ true) w
    → Stops c rest
    → q ≡ p + length w
    → run r q rest ≡ some a
    → run (Item.star c ∷ r) p (w ++ rest) ≡ some a
unfolding run
run-stars c r w rest p q a hw stops place hit =
    run_star-greedy c (run r) w rest p q a hw stops place hit

pub run-one :
    (c : ℕ → Bool) (r : List Item) (p x : ℕ) (xs : Bytes) (a : ℕ × List ℕ)
    → c x ≡ true
    → run r (suc p) xs ≡ some a
    → run (Item.one c ∷ r) p (x ∷ xs) ≡ some a
unfolding run run_one
run-one c r p x xs a hit rest = rw hit rest

pub run-mark :
    (r : List Item) (p e : ℕ) (xs : Bytes) (ms : List ℕ)
    → run r p xs ≡ some (e, ms)
    → run (Item.mark ∷ r) p xs ≡ some (e, p ∷ ms)
unfolding run add_mark
run-mark r p e xs ms rest = rw rest refl

pub run-nil : (p : ℕ) (xs : Bytes) → run [] p xs ≡ some (p, [])
unfolding run
run-nil p xs = refl

-- At least one character of a class
pub run-some :
    (c : ℕ → Bool) (r : List Item) (w rest : Bytes) (p q : ℕ) (a : ℕ × List ℕ)
    → w ≢ []
    → All (λ d. c d ≡ true) w
    → Stops c rest
    → q ≡ p + length w
    → run r q rest ≡ some a
    → run (Item.one c ∷ Item.star c ∷ r) p (w ++ rest) ≡ some a
run-some c r [] rest p q a some_char hw stops place hit = absurd (some_char refl)
run-some c r (d ∷ w) rest p q a some_char hw stops place hit =
    run-one c (Item.star c ∷ r) p d (w ++ rest) a hw.0
      (run-stars c r w rest (suc p) q a hw.1 stops (omega (arith, place)) hit)

pub search_regex-first :
    (r : List Item) (text : Bytes) (e : ℕ) (ms : List ℕ)
    → run r 0 text ≡ some (e, ms)
    → search_regex r text ≡ some (record { first = 0; second = e; marks = ms })
unfolding search_regex search_from found
search_regex-first r [] e ms hit = rw hit refl
search_regex-first r (x ∷ text) e ms hit = rw hit refl
