-- ===== src/Regex/Needs.antt =====
-- Patterns with a literal character, on lines that lack it.
use extractor.Base.{
  ℕ, suc, ◌≡◌, ◌≢◌, true, false, none, some, inl, inr, ◌⊎◌, List, [], ◌∷◌, Bytes, All, Option-cases,
}
use extractor.Regex.{Item, run, found, search_from, search_regex, is_found}
use extractor.Regex.Language.{
  Matches, done, at_begin, at_end, at_mark, char, opt_in, opt_out, star_in, star_out, run-Sound,
  Sound,
}

-- Every match of the pattern reads the byte `c`.
abbrev pub Needs : ℕ → List Item → Type 0
Needs c [] = ⊥
Needs c (Item.one f ∷ r) = ((x : ℕ) → f x ≡ true → x ≡ c) ⊎ Needs c r
Needs c (Item.begin ∷ r) = Needs c r
Needs c (Item.end ∷ r) = Needs c r
Needs c (Item.mark ∷ r) = Needs c r
Needs c (Item.opt f ∷ r) = Needs c r
Needs c (Item.star f ∷ r) = Needs c r

abbrev pub Lacks : ℕ → Bytes → Type 0
Lacks c = All (λ x. x ≢ c)

Matches-Lacks :
    (c : ℕ) {r : List Item} {p e : ℕ} {xs : Bytes} {ms : List ℕ}
    → Matches r p xs e ms
    → Needs c r
    → Lacks c xs
    → ⊥
Matches-Lacks c (done e) n l = n
Matches-Lacks c (at_begin e h) n l = Matches-Lacks c h n l
Matches-Lacks c (at_end h) n l = Matches-Lacks c h n l
Matches-Lacks c (at_mark e h) n l = Matches-Lacks c h n l
Matches-Lacks c (char {x = x} hit h) (inl only) l = l.0 (only x hit)
Matches-Lacks c (char hit h) (inr n) l = Matches-Lacks c h n l.1
Matches-Lacks c (opt_in hit h) n l = Matches-Lacks c h n l.1
Matches-Lacks c (opt_out h) n l = Matches-Lacks c h n l
Matches-Lacks c (star_in hit h) n l = Matches-Lacks c h n l.1
Matches-Lacks c (star_out h) n l = Matches-Lacks c h n l

module _ (c : ℕ) (r : List Item) (needs : Needs c r) where
  run-none : (p : ℕ) (xs : Bytes) → Lacks c xs → run r p xs ≡ none
  run-none p xs l = elim (Option-cases (run r p xs)) [
    | inl nothing ↦ nothing
    | inr ((e, ms), hit) ↦
        let m : Sound r p xs (some (e, ms)) = rw hit at (run-Sound r p xs) in
        absurd (Matches-Lacks c m needs l)
  ]

  search_from-none : (p : ℕ) (xs : Bytes) → Lacks c xs → search_from r p xs ≡ none
  unfolding search_from
  search_from-none p [] l = rw (run-none p [] l, found)
  search_from-none p (x ∷ xs) l =
      rw (run-none p (x ∷ xs) l, found) (search_from-none (suc p) xs l.1)

  pub search_regex-none : (line : Bytes) → Lacks c line → search_regex r line ≡ none
  unfolding search_regex
  search_regex-none line l = search_from-none 0 line l

  pub is_found-false : (line : Bytes) → Lacks c line → is_found r line ≡ false
  unfolding is_found
  is_found-false line l = rw (search_from-none 0 line l, is_found)
