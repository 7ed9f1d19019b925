-- ===== src/Regex/Triples.antt =====
-- Patterns of three single characters.
use extractor.Base.{
  ℕ, suc, ◌≡◌, refl, Bool, true, false, ◌&&◌, ◌||◌, Option, none, some, List, [], ◌∷◌, arith, Bytes,
}
use extractor.Regex.{Item, Match, run, run_one, found, search_from, search_regex, is_found}

-- Whether a text starts with two characters, and whether three stand anywhere in it
abbrev pub starts_with_two : (ℕ → Bool) → (ℕ → Bool) → Bytes → Bool
starts_with_two g h (y ∷ z ∷ rest) = g y && h z
starts_with_two g h _ = false

abbrev pub holds_three : (ℕ → Bool) → (ℕ → Bool) → (ℕ → Bool) → Bytes → Bool
holds_three f g h [] = false
holds_three f g h (x ∷ xs) =
    let later = holds_three f g h xs in f x && starts_with_two g h xs || later

abbrev is_match : Option Match → Bool
is_match none = false
is_match (some m) = true

module _ (f g h : ℕ → Bool) where
  abbrev triple : List Item
  triple = Item.one f ∷ Item.one g ∷ Item.one h ∷ []

  found_here :
      (p : ℕ) (x : ℕ) (xs : Bytes) (later : Option Match)
      → is_match (found p (run triple p (x ∷ xs)) later)
        ≡ (f x && starts_with_two g h xs || is_match later)
  unfolding found run run_one
  found_here p x [] later = ground arith
  found_here p x (y ∷ []) later = ground arith
  found_here p x (y ∷ z ∷ rest) later = ground arith

  search_from-triple :
      (p : ℕ) (xs : Bytes) → is_match (search_from triple p xs) ≡ holds_three f g h xs
  unfolding search_from found run run_one
  search_from-triple p [] = refl
  search_from-triple p (x ∷ xs) =
      rw (found_here p x xs (search_from triple (suc p) xs), search_from-triple (suc p) xs) refl

  pub is_found-triple :
      (xs : Bytes) → is_found (Item.one f ∷ Item.one g ∷ Item.one h ∷ []) xs ≡ holds_three f g h xs
  unfolding is_found search_regex
  is_found-triple xs = search_from-triple 0 xs
