-- ===== src/Regex/First.antt =====
-- Patterns that begin with `^\s*` and a character.
use extractor.Base.{
  ℕ, suc, ◌≡◌, refl, sym, Bool, true, false, Option, none, some, inl, inr, List, [], ◌∷◌, arith,
  Bytes, is_space, if◌then◌else◌, Option-cases, ==_iff,
}
use extractor.Regex.{Item, run, run_begin, found, search_from, search_regex, is_found, spaces, lit}
use extractor.Regex.Language.{Matches, at_begin, char, star_in, star_out, run-Sound, Sound}

pub first_visible : Bytes → Option ℕ
first_visible [] = none
first_visible (c ∷ s) = if is_space c then first_visible s else some c

-- Of a star of spaces and a character `c` that is none.
Matches-first_visible :
    (c : ℕ) {g f : ℕ → Bool} {r : List Item} {p e : ℕ} {xs : Bytes} {ms : List ℕ}
    → ((x : ℕ) → g x ≡ is_space x)
    → ((x : ℕ) → f x ≡ true → x ≡ c)
    → is_space c ≡ false
    → Matches (Item.star g ∷ Item.one f ∷ r) p xs e ms
    → first_visible xs ≡ some c
unfolding first_visible
Matches-first_visible c hg hf visible (star_in {x = x} hit h) =
    let rest = Matches-first_visible c hg hf visible h in
    let hit' : is_space x ≡ true = rw (sym (hg x)) hit in rw hit' rest
Matches-first_visible c hg hf visible (star_out (char {x = x} hit h)) = rw (hf x hit, visible) refl

run_late : (r : List Item) (p : ℕ) (xs : Bytes) → run (Item.begin ∷ r) (suc p) xs ≡ none
unfolding run run_begin
run_late r p xs = ground arith

module _ (r : List Item) (late : (p : ℕ) (xs : Bytes) → run r (suc p) xs ≡ none) where
  search_from-late : (p : ℕ) (xs : Bytes) → search_from r (suc p) xs ≡ none
  unfolding search_from
  search_from-late p [] = rw (late p [], found) refl
  search_from-late p (x ∷ xs) = rw (late p (x ∷ xs), found) (search_from-late (suc p) xs)

  search_from-anchored : (line : Bytes) → run r 0 line ≡ none → search_from r 0 line ≡ none
  unfolding search_from
  search_from-anchored [] miss = rw (miss, found) refl
  search_from-anchored (x ∷ xs) miss = rw (miss, found) (search_from-late 0 xs)

  is_found-run : (line : Bytes) → is_found r line ≡ true → (a : ℕ × List ℕ) × run r 0 line ≡ some a
  unfolding is_found search_regex
  is_found-run line h = elim (Option-cases (run r 0 line)) [
    | inl miss ↦ let nothing = search_from-anchored line miss in cc
    | inr hit ↦ hit
  ]

module _ (c : ℕ) (r : List Item) (visible : is_space c ≡ false) where
  run-first_visible :
      (p : ℕ) (xs : Bytes) {a : ℕ × List ℕ}
      → run (Item.begin ∷ spaces ∷ lit c ∷ r) p xs ≡ some a
      → (p ≡ 0) × (first_visible xs ≡ some c)
  run-first_visible p xs {a = a} hit =
      let m : Sound (Item.begin ∷ spaces ∷ lit c ∷ r) p xs (some a) =
        rw hit at (run-Sound (Item.begin ∷ spaces ∷ lit c ∷ r) p xs) in
      at_start m
    where
      at_start :
          {e : ℕ} {ms : List ℕ}
          → Matches (Item.begin ∷ spaces ∷ lit c ∷ r) p xs e ms
          → (p ≡ 0) × (first_visible xs ≡ some c)
      at_start (at_begin start h) =
          (start, Matches-first_visible c (λ x. refl) (λ x hit. (==_iff x c).0 hit) visible h)

  -- A line the pattern is found in starts with `c` behind its spaces.
  pub is_found-first_visible :
      (line : Bytes)
      → is_found (Item.begin ∷ spaces ∷ lit c ∷ r) line ≡ true
      → first_visible line ≡ some c
  is_found-first_visible line h =
      let (a, hit) =
        is_found-run (Item.begin ∷ spaces ∷ lit c ∷ r) (run_late (spaces ∷ lit c ∷ r)) line h in
      (run-first_visible 0 line hit).1
