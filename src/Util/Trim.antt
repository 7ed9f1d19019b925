-- ===== src/Util/Trim.antt =====
-- libwm/util.cc: `trim` and what it takes away.
use extractor.Base.{
  and_false, inl, inr, ◌≡◌, refl, ap, ◌∙◌, true, false, ◌&&◌, [], ◌∷◌, ◌++◌, Bytes, is_space,
  is_empty, All, Bool-cases, if◌then◌else◌,
}
use extractor.Util.{left_trim, right_trim, trim}

abbrev pub IsBlank : Bytes → Type 0
IsBlank = All λ c. is_space c ≡ true

-- No space stands at the start, and none at the end.
abbrev pub StartsVisible : Bytes → Type 0
StartsVisible [] = Unit
StartsVisible (c ∷ s) = is_space c ≡ false

abbrev pub EndsVisible : Bytes → Type 0
EndsVisible [] = Unit
EndsVisible (c ∷ []) = is_space c ≡ false
EndsVisible (c ∷ d ∷ s) = EndsVisible (d ∷ s)

left_trim_lem :
    (s : Bytes)
    → (before : Bytes) × (s ≡ before ++ left_trim s) × IsBlank before × StartsVisible (left_trim s)
unfolding left_trim
left_trim_lem [] = ([], refl, tt, tt)
left_trim_lem (c ∷ s) = elim (Bool-cases (is_space c)) [
  | inl blank ↦
      let (before, joined, spaces, starts) = left_trim_lem s in
      rw blank (c ∷ before, ap (λ t. c ∷ t) joined, (blank, spaces), starts)
  | inr visible ↦ rw visible ([], refl, tt, visible)
]

right_trim_lem :
    (s : Bytes)
    → (after : Bytes) × (s ≡ right_trim s ++ after) × IsBlank after × EndsVisible (right_trim s)
unfolding right_trim
right_trim_lem [] = ([], refl, tt, tt)
right_trim_lem (c ∷ s) =
    let (after, joined, spaces, ends) = right_trim_lem s in
    kept after (right_trim s) joined spaces ends
  where
    kept :
        (after t : Bytes)
        → s ≡ t ++ after
        → IsBlank after
        → EndsVisible t
        → (after' : Bytes) × (c ∷ s ≡ (if is_empty t && is_space c then [] else c ∷ t) ++ after')
          × IsBlank after'
          × EndsVisible (if is_empty t && is_space c then [] else c ∷ t)
    kept after [] joined spaces ends = elim (Bool-cases (is_space c)) [
      | inl blank ↦ rw blank (c ∷ after, ap (λ u. c ∷ u) joined, (blank, spaces), tt)
      | inr visible ↦ rw visible (after, ap (λ u. c ∷ u) joined, spaces, visible)
    ]
    kept after (d ∷ t) joined spaces ends = (after, ap (λ u. c ∷ u) joined, spaces, ends)

right_trim-StartsVisible : (s : Bytes) → StartsVisible s → StartsVisible (right_trim s)
unfolding right_trim
right_trim-StartsVisible [] h = tt
right_trim-StartsVisible (c ∷ s) h = rw (h, and_false (is_empty (right_trim s))) h

pub trim_lem :
    (s : Bytes)
    → (before after : Bytes) × (s ≡ before ++ (trim s ++ after))
      × IsBlank before
      × IsBlank after
      × StartsVisible (trim s)
      × EndsVisible (trim s)
unfolding trim
trim_lem s =
    let (before, joined, spaces, starts) = left_trim_lem s in
    let (after, joined', spaces', ends) = right_trim_lem (left_trim s) in
    (
      before,
      after,
      joined ∙ ap (λ t. before ++ t) joined',
      spaces,
      spaces',
      right_trim-StartsVisible (left_trim s) starts,
      ends,
    )
