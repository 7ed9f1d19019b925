-- ===== src/Regex/Greedy.antt =====
-- The matcher with groups on runs of characters.
use extractor.Base.{
  ℕ, zero, suc, ◌+◌, ◌≤◌, ◌≡◌, ◌≢◌, refl, ◌∙◌, Bool, true, false, none, some, inl, inr, [], ◌∷◌,
  ◌++◌, arith, Bytes, length, length-append, All, ◌==◌, Bool-cases, if◌then◌else◌,
}
use extractor.Regex.Groups.{
  Pattern, Groups, Rest, or_found, match_char, match_maybe, match_many, match_pattern, accept,
  search_at, search_groups,
}

-- The text does not go on with a character of the class.
abbrev pub Stops : (ℕ → Bool) → Bytes → Type 0
Stops c [] = Unit
Stops c (x ∷ xs) = c x ≡ false

-- One character, and a run of at least one
abbrev pub Run : (ℕ → Bool) → Pattern
Run c = Pattern.seq (Pattern.char c) (Pattern.many (Pattern.char c))

module _ (c : ℕ → Bool) (k : Rest) where
  match_char-none : (p : ℕ) (xs : Bytes) (gs : Groups) → Stops c xs → match_char c k p xs gs ≡ none
  unfolding match_char
  match_char-none p [] gs h = refl
  match_char-none p (x ∷ xs) gs h = rw h refl

  pub match_char-one :
      (p x : ℕ) (xs : Bytes) (gs : Groups)
      → c x ≡ true
      → match_char c k p (x ∷ xs) gs ≡ k (suc p) xs gs
  unfolding match_char
  match_char-one p x xs gs h = rw h refl

later_place : (p : ℕ) → (suc p == p) ≡ false
later_place p = ground arith

module _ (c : ℕ → Bool) (k : Rest) where
  -- A run is read as a whole where that leads to a match.
  pub match_many-greedy :
      (w rest : Bytes) (rounds p q : ℕ) (gs : Groups) (r : ℕ × Groups)
      → All (λ d. c d ≡ true) w
      → Stops c rest
      → length w ≤ rounds
      → q ≡ p + length w
      → k q rest gs ≡ some r
      → match_many (match_char c) rounds k p (w ++ rest) gs ≡ some r
  unfolding match_many or_found
  match_many-greedy [] rest zero p q gs r hw stops fits place hit =
      let same : q ≡ p = omega (arith, place) in rw (← same) hit
  match_many-greedy [] rest (suc rounds) p q gs r hw stops fits place hit =
      let same : q ≡ p = omega (arith, place) in
      rw (match_char-none c _ p rest gs stops) (rw (← same) hit)
  match_many-greedy (d ∷ w) rest zero p q gs r hw stops fits place hit = absurd (omega arith)
  match_many-greedy (d ∷ w) rest (suc rounds) p q gs r hw stops fits place hit =
      rw (match_char-one c _ p d (w ++ rest) gs hw.0, later_place p)
        (rw
          (match_many-greedy w rest rounds (suc p) q gs r hw.1 stops (omega arith)
            (omega (arith, place)) hit)
          refl)

  further : Rest
  further p xs gs = match_many (match_char c) (length xs) k p xs gs

  pub Run-greedy :
      (w rest : Bytes) (p q : ℕ) (gs : Groups) (r : ℕ × Groups)
      → w ≢ []
      → All (λ d. c d ≡ true) w
      → Stops c rest
      → q ≡ p + length w
      → k q rest gs ≡ some r
      → match_pattern (Run c) k p (w ++ rest) gs ≡ some r
  unfolding match_pattern further
  Run-greedy [] rest p q gs r some_char hw stops place hit = absurd (some_char refl)
  Run-greedy (d ∷ w) rest p q gs r some_char hw stops place hit =
      match_char-one c further p d (w ++ rest) gs hw.0
      ∙ match_many-greedy w rest (length (w ++ rest)) (suc p) q gs r hw.1 stops
          (omega (arith, length-append w rest)) (omega (arith, place)) hit

  -- A run that no continuation can follow is not read.
  pub match_many-none :
      (P : ℕ → Type 0) (rounds p : ℕ) (xs : Bytes) (gs : Groups)
      → ((q : ℕ) (ys : Bytes) (hs : Groups) → All P ys → k q ys hs ≡ none)
      → All P xs
      → match_many (match_char c) rounds k p xs gs ≡ none
  unfolding match_many or_found
  match_many-none P zero p xs gs miss h = miss p xs gs h
  match_many-none P (suc rounds) p [] gs miss h =
      rw (match_char-none c _ p [] gs tt) (miss p [] gs tt)
  match_many-none P (suc rounds) p (x ∷ xs) gs miss h = elim (Bool-cases (c x)) [
    | inl hit ↦
        rw (match_char-one c _ p x xs gs hit, later_place p)
          (rw (match_many-none P rounds (suc p) xs gs miss h.1) (miss p (x ∷ xs) gs h))
    | inr other ↦ rw (match_char-none c _ p (x ∷ xs) gs other) (miss p (x ∷ xs) gs h)
  ]

  pub Run-none :
      (P : ℕ → Type 0) (p : ℕ) (xs : Bytes) (gs : Groups)
      → ((q : ℕ) (ys : Bytes) (hs : Groups) → All P ys → k q ys hs ≡ none)
      → All P xs
      → match_pattern (Run c) k p xs gs ≡ none
  unfolding match_pattern further
  Run-none P p [] gs miss h = match_char-none c further p [] gs tt
  Run-none P p (x ∷ xs) gs miss h = elim (Bool-cases (c x)) [
    | inl hit ↦
        match_char-one c further p x xs gs hit
        ∙ match_many-none P (length xs) (suc p) xs gs miss h.1
    | inr other ↦ match_char-none c further p (x ∷ xs) gs other
  ]

-- A match at the start of the text is the one that a search finds.
pub search_groups-first :
    (r : Pattern) (text : Bytes) (a : ℕ × Groups)
    → match_pattern r accept 0 text [] ≡ some a
    → search_groups r text ≡ some a
unfolding search_groups search_at or_found
search_groups-first r [] a hit = hit
search_groups-first r (x ∷ text) a hit = rw hit refl

module _ (a : Pattern) (k : Rest) (p : ℕ) (xs : Bytes) (gs : Groups) where
  pub match_group :
      (n : ℕ)
      → match_pattern (Pattern.group n a) k p xs gs
        ≡ match_pattern a (λ q ys hs. k q ys ((n, (p, q)) ∷ hs)) p xs gs
  unfolding match_pattern
  match_group n = refl

  pub match_seq :
      (b : Pattern)
      → match_pattern (Pattern.seq a b) k p xs gs ≡ match_pattern a (match_pattern b k) p xs gs
  unfolding match_pattern
  match_seq b = refl

  -- A part that may be missing and that is not there
  pub match_maybe-none :
      match_pattern a k p xs gs ≡ none → match_pattern (Pattern.maybe a) k p xs gs ≡ k p xs gs
  unfolding match_pattern match_maybe or_found
  match_maybe-none miss = rw miss refl

  pub match_maybe-some :
      (r : ℕ × Groups)
      → match_pattern a k p xs gs ≡ some r
      → match_pattern (Pattern.maybe a) k p xs gs ≡ some r
  unfolding match_pattern match_maybe or_found
  match_maybe-some r hit = rw hit refl

-- A part that can be repeated: a first round, and none
pub match_many-once :
    (a : Pattern) (rounds : ℕ) (k : Rest) (p : ℕ) (xs : Bytes) (gs : Groups) (r : ℕ × Groups)
    → match_pattern a
        (λ q ys hs. if q == p then none else match_many (match_pattern a) rounds k q ys hs)
        p
        xs
        gs
      ≡ some r
    → match_many (match_pattern a) (suc rounds) k p xs gs ≡ some r
unfolding match_many or_found
match_many-once a rounds k p xs gs r hit = rw hit refl

pub match_many-stop :
    (a : Pattern) (rounds : ℕ) (k : Rest) (p : ℕ) (xs : Bytes) (gs : Groups)
    → ((k' : Rest) → match_pattern a k' p xs gs ≡ none)
    → match_many (match_pattern a) rounds k p xs gs ≡ k p xs gs
unfolding match_many or_found
match_many-stop a zero k p xs gs miss = refl
match_many-stop a (suc rounds) k p xs gs miss =
    rw (miss (λ q ys hs. if q == p then none else match_many (match_pattern a) rounds k q ys hs))
      refl

pub match_many_rounds :
    (a : Pattern) (k : Rest) (p : ℕ) (xs : Bytes) (gs : Groups)
    → match_pattern (Pattern.many a) k p xs gs ≡ match_many (match_pattern a) (length xs) k p xs gs
unfolding match_pattern
match_many_rounds a k p xs gs = refl
