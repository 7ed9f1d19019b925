-- ===== src/Regex/Language.antt =====
-- What a list of items matches, as a relation, and the matcher against it.
use extractor.Base.{
  ℕ, suc, ◌≡◌, ◌≢◌, Bool, true, none, some, inl, inr, List, [], ◌∷◌, arith, Bytes, Bool-cases, refl,
  ◌==◌, ==_iff,
}
use extractor.Regex.{Item, Reply, or_else, add_mark, run_begin, run_one, run_opt, run_star, run}

-- `Matches r p xs e ms`: from position `p`, with `xs` unread, `r` can match up to position `e`
-- with its marks at `ms`.
pub data Matches : List Item → ℕ → Bytes → ℕ → List ℕ → Type 0 where
  done : {p e : ℕ} {xs : Bytes} → e ≡ p → Matches [] p xs e []
  at_begin :
      {r : List Item} {p e : ℕ} {xs : Bytes} {ms : List ℕ}
      → p ≡ 0
      → Matches r p xs e ms
      → Matches (Item.begin ∷ r) p xs e ms
  at_end :
      {r : List Item} {p e : ℕ} {ms : List ℕ}
      → Matches r p [] e ms
      → Matches (Item.end ∷ r) p [] e ms
  at_mark :
      {r : List Item} {p q e : ℕ} {xs : Bytes} {ms : List ℕ}
      → q ≡ p
      → Matches r p xs e ms
      → Matches (Item.mark ∷ r) p xs e (q ∷ ms)
  char :
      {c : ℕ → Bool} {r : List Item} {x p e : ℕ} {xs : Bytes} {ms : List ℕ}
      → c x ≡ true
      → Matches r (suc p) xs e ms
      → Matches (Item.one c ∷ r) p (x ∷ xs) e ms
  opt_in :
      {c : ℕ → Bool} {r : List Item} {x p e : ℕ} {xs : Bytes} {ms : List ℕ}
      → c x ≡ true
      → Matches r (suc p) xs e ms
      → Matches (Item.opt c ∷ r) p (x ∷ xs) e ms
  opt_out :
      {c : ℕ → Bool} {r : List Item} {p e : ℕ} {xs : Bytes} {ms : List ℕ}
      → Matches r p xs e ms
      → Matches (Item.opt c ∷ r) p xs e ms
  star_in :
      {c : ℕ → Bool} {r : List Item} {x p e : ℕ} {xs : Bytes} {ms : List ℕ}
      → c x ≡ true
      → Matches (Item.star c ∷ r) (suc p) xs e ms
      → Matches (Item.star c ∷ r) p (x ∷ xs) e ms
  star_out :
      {c : ℕ → Bool} {r : List Item} {p e : ℕ} {xs : Bytes} {ms : List ℕ}
      → Matches r p xs e ms
      → Matches (Item.star c ∷ r) p xs e ms

-- A reply that is a match stands in the relation.
abbrev pub Sound : List Item → ℕ → Bytes → Reply → Type 0
Sound r p xs none = Unit
Sound r p xs (some (e, ms)) = Matches r p xs e ms

Sound-map :
    (r r' : List Item) (p q : ℕ) (xs ys : Bytes) (a : Reply)
    → ((e : ℕ) (ms : List ℕ) → Matches r q ys e ms → Matches r' p xs e ms)
    → Sound r q ys a
    → Sound r' p xs a
Sound-map r r' p q xs ys none f h = tt
Sound-map r r' p q xs ys (some (e, ms)) f h = f e ms h

Sound-or_else :
    (r : List Item) (p : ℕ) (xs : Bytes) (a b : Reply)
    → Sound r p xs a
    → Sound r p xs b
    → Sound r p xs (or_else a b)
unfolding or_else
Sound-or_else r p xs none b ha hb = hb
Sound-or_else r p xs (some a) b ha hb = ha

module _ (c : ℕ → Bool) (r : List Item) (h : (q : ℕ) (ys : Bytes) → Sound r q ys (run r q ys)) where
  run_one-Sound : (p : ℕ) (xs : Bytes) → Sound (Item.one c ∷ r) p xs (run_one c (run r) p xs)
  unfolding run_one
  run_one-Sound p [] = tt
  run_one-Sound p (x ∷ xs) = elim (Bool-cases (c x)) [
    | inl hit ↦ rw hit (Sound-map r _ p (suc p) _ xs _ (λ e ms. char hit) (h (suc p) xs))
    | inr miss ↦ rw miss tt
  ]

  run_opt-Sound : (p : ℕ) (xs : Bytes) → Sound (Item.opt c ∷ r) p xs (run_opt c (run r) p xs)
  unfolding run_opt
  run_opt-Sound p [] = Sound-map r _ p p [] [] _ (λ e ms. opt_out) (h p [])
  run_opt-Sound p (x ∷ xs) =
      let skip =
        Sound-map r (Item.opt c ∷ r) p p (x ∷ xs) (x ∷ xs) _ (λ e ms. opt_out) (h p (x ∷ xs)) in
      elim (Bool-cases (c x)) [
        | inl hit ↦ rw hit (
            Sound-or_else _ p _ _ _
              (Sound-map r _ p (suc p) _ xs _ (λ e ms. opt_in hit) (h (suc p) xs)) skip)
        | inr miss ↦ rw miss skip
      ]

  run_star-Sound : (p : ℕ) (xs : Bytes) → Sound (Item.star c ∷ r) p xs (run_star c (run r) p xs)
  unfolding run_star
  run_star-Sound p [] = Sound-map r _ p p [] [] _ (λ e ms. star_out) (h p [])
  run_star-Sound p (x ∷ xs) =
      let skip =
        Sound-map r (Item.star c ∷ r) p p (x ∷ xs) (x ∷ xs) _ (λ e ms. star_out) (h p (x ∷ xs)) in
      elim (Bool-cases (c x)) [
        | inl hit ↦ rw hit (
            Sound-or_else _ p _ _ _
              (Sound-map (Item.star c ∷ r) _ p (suc p) _ xs _ (λ e ms. star_in hit)
                (run_star-Sound (suc p) xs))
              skip)
        | inr miss ↦ rw miss skip
      ]

add_mark-Sound :
    (r : List Item) (p : ℕ) (xs : Bytes) (a : Reply)
    → Sound r p xs a
    → Sound (Item.mark ∷ r) p xs (add_mark p a)
unfolding add_mark
add_mark-Sound r p xs none h = tt
add_mark-Sound r p xs (some (e, ms)) h = at_mark refl h

pub run-Sound : (r : List Item) (p : ℕ) (xs : Bytes) → Sound r p xs (run r p xs)
unfolding run
run-Sound [] p xs = done refl
run-Sound (Item.begin ∷ r) p xs = elim (Bool-cases (p == 0)) [
  | inl start ↦
      rw (start, run_begin)
        (Sound-map r _ p p xs xs _ (λ e ms. at_begin ((==_iff p 0).0 start)) (run-Sound r p xs))
  | inr later ↦ rw (later, run_begin) tt
]
run-Sound (Item.end ∷ r) p [] = Sound-map r _ p p [] [] _ (λ e ms. at_end) (run-Sound r p [])
run-Sound (Item.end ∷ r) p (x ∷ xs) = tt
run-Sound (Item.mark ∷ r) p xs = add_mark-Sound r p xs (run r p xs) (run-Sound r p xs)
run-Sound (Item.one c ∷ r) p xs = run_one-Sound c r (run-Sound r) p xs
run-Sound (Item.opt c ∷ r) p xs = run_opt-Sound c r (run-Sound r) p xs
run-Sound (Item.star c ∷ r) p xs = run_star-Sound c r (run-Sound r) p xs

-- A match in the relation is not missed.
pub run_complete :
    {r : List Item} {p e : ℕ} {xs : Bytes} {ms : List ℕ} → Matches r p xs e ms → run r p xs ≢ none
unfolding run
run_complete (done e) = cc
run_complete (at_begin e h) = ground (arith, run_complete h)
run_complete (at_end h) = run_complete h
run_complete (at_mark e h) = ground (arith, run_complete h)
run_complete (char hit h) = ground (arith, run_complete h)
run_complete (opt_in hit h) = ground (arith, run_complete h)
run_complete (opt_out {xs = []} h) = run_complete h
run_complete (opt_out {xs = x ∷ xs} h) = ground (arith, run_complete h)
run_complete (star_in hit h) = ground (arith, run_complete h)
run_complete (star_out {xs = []} h) = run_complete h
run_complete (star_out {xs = x ∷ xs} h) = ground (arith, run_complete h)
