-- ===== src/Regex/Advance.antt =====
-- Patterns with a literal character: a match of one is not empty.
use extractor.Base.{ℕ, suc, ◌≤◌, ◌<◌, ◌≡◌, none, some, List, [], ◌∷◌, arith, Bytes, Option}
use extractor.Regex.{Item, Match, Reply, run, found, search_from, search_regex}
use extractor.Regex.Language.{
  Matches, done, at_begin, at_end, at_mark, char, opt_in, opt_out, star_in, star_out, run-Sound,
  Sound,
}

-- Every match of the pattern reads a byte.
abbrev pub ReadsByte : List Item → Type 0
ReadsByte [] = ⊥
ReadsByte (Item.one f ∷ r) = Unit
ReadsByte (Item.begin ∷ r) = ReadsByte r
ReadsByte (Item.end ∷ r) = ReadsByte r
ReadsByte (Item.mark ∷ r) = ReadsByte r
ReadsByte (Item.opt f ∷ r) = ReadsByte r
ReadsByte (Item.star f ∷ r) = ReadsByte r

Matches-forward : {r : List Item} {p e : ℕ} {xs : Bytes} {ms : List ℕ} → Matches r p xs e ms → p ≤ e
Matches-forward (done e) = omega (arith, e)
Matches-forward (at_begin e h) = Matches-forward h
Matches-forward (at_end h) = Matches-forward h
Matches-forward (at_mark e h) = Matches-forward h
Matches-forward (char hit h) = omega (arith, Matches-forward h)
Matches-forward (opt_in hit h) = omega (arith, Matches-forward h)
Matches-forward (opt_out h) = Matches-forward h
Matches-forward (star_in hit h) = omega (arith, Matches-forward h)
Matches-forward (star_out h) = Matches-forward h

Matches-ReadsByte :
    {r : List Item} {p e : ℕ} {xs : Bytes} {ms : List ℕ} → Matches r p xs e ms → ReadsByte r → p < e
Matches-ReadsByte (done e) n = elim n [ ]
Matches-ReadsByte (at_begin e h) n = Matches-ReadsByte h n
Matches-ReadsByte (at_end h) n = Matches-ReadsByte h n
Matches-ReadsByte (at_mark e h) n = Matches-ReadsByte h n
Matches-ReadsByte (char hit h) n = omega (arith, Matches-forward h)
Matches-ReadsByte (opt_in hit h) n = omega (arith, Matches-ReadsByte h n)
Matches-ReadsByte (opt_out h) n = Matches-ReadsByte h n
Matches-ReadsByte (star_in hit h) n = omega (arith, Matches-ReadsByte h n)
Matches-ReadsByte (star_out h) n = Matches-ReadsByte h n

abbrev Forward : Option Match → Type 0
Forward none = Unit
Forward (some m) = m.first < m.second

module _ (r : List Item) (reads : ReadsByte r) where
  found-Forward :
      (p : ℕ) (xs : Bytes) (reply : Reply) (later : Option Match)
      → Sound r p xs reply
      → Forward later
      → Forward (found p reply later)
  unfolding found
  found-Forward p xs none later h hl = hl
  found-Forward p xs (some (e, ms)) later h hl = Matches-ReadsByte h reads

  search_from-Forward : (p : ℕ) (xs : Bytes) → Forward (search_from r p xs)
  unfolding search_from
  search_from-Forward p [] = found-Forward p [] (run r p []) none (run-Sound r p []) tt
  search_from-Forward p (x ∷ xs) =
      found-Forward p (x ∷ xs) (run r p (x ∷ xs)) (search_from r (suc p) xs)
        (run-Sound r p (x ∷ xs)) (search_from-Forward (suc p) xs)

  pub search_regex-ReadsByte :
      (line : Bytes) {m : Match} → search_regex r line ≡ some m → m.first < m.second
  unfolding search_regex
  search_regex-ReadsByte line {m = m} e =
      let h : Forward (some m) = rw e at (search_from-Forward 0 line) in h
