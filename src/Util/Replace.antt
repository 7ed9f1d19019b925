-- ===== src/Util/Replace.antt =====
-- libwm/util.cc: `replace` against a replacement in one pass from the left.
use extractor.Base.{
  ℕ, zero, suc, ◌+◌, ◌-◌, ◌<◌, ◌≡◌, ◌≢◌, refl, sym, ap, ◌∙◌, true, false, Option, none, some, inl,
  inr, List, [], ◌∷◌, ◌++◌, arith, append_assoc, length-append, Bytes, ◌==◌, ==_iff, if◌then◌else◌,
  length, take, drop, Bool-cases, Option-cases,
}
use extractor.Util.{is_prefix, find_in, find_drop, find, replace_loop}

-- Each occurrence of `search`, from the left, gives way to `by`; `skip` counts the characters of
-- an occurrence that are still to be left out.
unfoldable pub replaced : Bytes → Bytes → ℕ → Bytes → Bytes
replaced search by skip [] = []
replaced search by (suc skip) (c ∷ s) = replaced search by skip s
replaced search by zero (c ∷ s) =
    let here = by ++ replaced search by (length search - 1) s in
    let there = c ∷ replaced search by zero s in if is_prefix search (c ∷ s) then here else there

is_prefix-append : (xs s : Bytes) → is_prefix xs s ≡ true → (post : Bytes) × (s ≡ xs ++ post)
unfolding is_prefix
is_prefix-append [] s h = (s, refl)
is_prefix-append (x ∷ xs) [] h = cc
is_prefix-append (x ∷ xs) (y ∷ ys) h = elim (Bool-cases (x == y)) [
  | inl same ↦
      let rest : is_prefix xs ys ≡ true = rw same at h in
      let (post, e) = is_prefix-append xs ys rest in
      let head : x ≡ y = (==_iff x y).0 same in (post, rw (e, head) refl)
  | inr other ↦ let no : false ≡ true = rw other at h in cc
]

module _ (c : ℕ) (search by : Bytes) where
  replaced-skip :
      (xs post : Bytes)
      → replaced (c ∷ search) by (length xs) (xs ++ post) ≡ replaced (c ∷ search) by 0 post
  unfolding replaced
  replaced-skip [] post = refl
  replaced-skip (x ∷ xs) post = replaced-skip xs post

  replaced-hit :
      (x : ℕ) (s post : Bytes)
      → is_prefix (c ∷ search) (x ∷ s) ≡ true
      → x ∷ s ≡ (c ∷ search) ++ post
      → replaced (c ∷ search) by 0 (x ∷ s) ≡ by ++ replaced (c ∷ search) by 0 post
  unfolding replaced
  replaced-hit x s post hit e =
      let tail : s ≡ search ++ post = cc in
      let skipped : suc (length search) - 1 ≡ length search = omega arith in
      rw (hit, replaced, skipped)
        (ap (λ t. by ++ replaced (c ∷ search) by (length search) t) tail
          ∙ ap (λ t. by ++ t) (replaced-skip search post))

  replaced-miss :
      (x : ℕ) (s : Bytes)
      → is_prefix (c ∷ search) (x ∷ s) ≡ false
      → replaced (c ∷ search) by 0 (x ∷ s) ≡ x ∷ replaced (c ∷ search) by 0 s
  unfolding replaced
  replaced-miss x s miss = rw (miss, replaced) refl

  -- Where nothing is found, nothing is replaced.
  find_in-none :
      (pos : ℕ) (s : Bytes) → find_in (c ∷ search) pos s ≡ none → replaced (c ∷ search) by 0 s ≡ s
  unfolding find_in replaced
  find_in-none pos [] h = refl
  find_in-none pos (x ∷ s) h = elim (Bool-cases (is_prefix (c ∷ search) (x ∷ s))) [
    | inl hit ↦ let no : ◌≡◌ {A = Option ℕ} (some pos) none = rw hit at h in cc
    | inr miss ↦ rw miss (ap (λ t. x ∷ t) (find_in-none (suc pos) s (rw miss at h)))
  ]

  -- Where an occurrence is found, it is the first to be replaced.
  find_in-some :
      (pos : ℕ) (s : Bytes) {p : ℕ}
      → find_in (c ∷ search) pos s ≡ some p
      → (pre post : Bytes) × (s ≡ pre ++ ((c ∷ search) ++ post))
        × (p ≡ pos + length pre)
        × (replaced (c ∷ search) by 0 s ≡ pre ++ (by ++ replaced (c ∷ search) by 0 post))
  unfolding find_in
  find_in-some pos [] h = cc
  find_in-some pos (x ∷ s) {p = p} h = elim (Bool-cases (is_prefix (c ∷ search) (x ∷ s))) [
    | inl hit ↦
        let (post, e) = is_prefix-append (c ∷ search) (x ∷ s) hit in
        let here : ◌≡◌ {A = Option ℕ} (some pos) (some p) = rw hit at h in
        let same : pos ≡ p = cc in ([], post, e, omega arith, replaced-hit x s post hit e)
    | inr miss ↦
        let (pre, post, e, at, r) = find_in-some (suc pos) s {p = p} (rw miss at h) in
        (x ∷ pre, post, ap (λ t. x ∷ t) e, omega arith, replaced-miss x s miss ∙ ap (λ t. x ∷ t) r)
  ]

find_drop-append :
    (search xs ys : Bytes) (pos : ℕ)
    → find_drop search (xs ++ ys) pos (length xs) ≡ find_in search (pos + length xs) ys
unfolding find_drop
find_drop-append search [] ys pos = let here : pos + 0 ≡ pos = omega arith in rw here refl
find_drop-append search (x ∷ xs) ys pos =
    let there : suc pos + length xs ≡ pos + suc (length xs) = omega arith in
    find_drop-append search xs ys (suc pos) ∙ rw there refl

find-append :
    (search xs ys : Bytes) → find (xs ++ ys) search (length xs) ≡ find_in search (length xs) ys
unfolding find
find-append search xs ys =
    let from_start : 0 + length xs ≡ length xs = omega arith in
    find_drop-append search xs ys 0 ∙ rw from_start refl

take-front {ℓ} : {A : Type ℓ} (xs ys : List A) → take (length xs) (xs ++ ys) ≡ xs
take-front [] ys = refl
take-front (x ∷ xs) ys = ap (λ t. x ∷ t) (take-front xs ys)

drop-front {ℓ} : {A : Type ℓ} (xs ys : List A) → drop (length xs) (xs ++ ys) ≡ ys
drop-front [] ys = refl
drop-front (x ∷ xs) ys = drop-front xs ys

-- What one round makes of a subject whose occurrence is found.
spliced :
    (search by front post : Bytes)
    → take (length front) (front ++ (search ++ post))
        ++ (by ++ drop (length front + length search) (front ++ (search ++ post)))
      ≡ (front ++ by) ++ post
spliced search by front post =
    let whole : front ++ (search ++ post) ≡ (front ++ search) ++ post =
      sym (append_assoc front search post) in
    let width : length front + length search ≡ length (front ++ search) =
      sym (length-append front search) in
    ap (λ t. t ++ (by ++ drop (length front + length search) (front ++ (search ++ post))))
      (take-front front (search ++ post))
    ∙ ap (λ t. front ++ (by ++ drop (length front + length search) t)) whole
    ∙ ap (λ n. front ++ (by ++ drop n ((front ++ search) ++ post))) width
    ∙ ap (λ t. front ++ (by ++ t)) (drop-front (front ++ search) post)
    ∙ sym (append_assoc front by post)

-- One round, for what is found.
replace_round :
    (fuel : ℕ) (subject text by : Bytes) (pos : ℕ) {r : Option ℕ}
    → find subject text pos ≡ r
    → replace_loop (suc fuel) subject text by pos ≡ elim r as (λ r. Option Bytes) [
      | none ↦ some subject
      | some p ↦
          replace_loop fuel
            (take p subject ++ (by ++ drop (p + length text) subject))
            text
            by
            (p + length by)
    ]
unfolding replace_loop
replace_round fuel subject text by pos h =
    ap
      (λ r. elim r as (λ r. Option Bytes) [
        | none ↦ some subject
        | some p ↦
            replace_loop fuel (take p subject ++ (by ++ drop (p + length text) subject)) text by
              (p + length by)
      ])
      h

replace_loop-replaced :
    (c : ℕ) (text by : Bytes) (fuel : ℕ) (front rest : Bytes)
    → length rest < fuel
    → replace_loop fuel (front ++ rest) (c ∷ text) by (length front)
      ≡ some (front ++ replaced (c ∷ text) by 0 rest)
replace_loop-replaced c text by zero front rest h = absurd (omega arith)
replace_loop-replaced c text by (suc fuel) front rest h =
    elim (Option-cases (find_in (c ∷ text) (length front) rest)) [
      | inl nothing ↦
          replace_round fuel (front ++ rest) (c ∷ text) by (length front)
            (find-append (c ∷ text) front rest ∙ nothing)
          ∙ ap (λ t. some (front ++ t)) (sym (find_in-none c text by (length front) rest nothing))
      | inr (p, hit) ↦
          let (pre, post, e, at, r) = find_in-some c text by (length front) rest hit in
          let place : p ≡ length (front ++ pre) = omega (arith, at, length-append front pre) in
          let subject : front ++ rest ≡ (front ++ pre) ++ ((c ∷ text) ++ post) =
            ap (λ t. front ++ t) e ∙ sym (append_assoc front pre ((c ∷ text) ++ post)) in
          let further : length ((front ++ pre) ++ by) ≡ length (front ++ pre) + length by =
            length-append (front ++ pre) by in
          let shorter : length post < fuel = omega (
            arith,
            h,
            ap length e,
            length-append pre ((c ∷ text) ++ post),
            length-append (c ∷ text) post,
          ) in
          replace_round fuel (front ++ rest) (c ∷ text) by (length front)
            (find-append (c ∷ text) front rest ∙ hit)
          ∙ rw (place, subject, spliced (c ∷ text) by (front ++ pre) post, ← further)
              (replace_loop-replaced c text by fuel ((front ++ pre) ++ by) post shorter
                ∙ ap some (
                    append_assoc (front ++ pre) by (replaced (c ∷ text) by 0 post)
                    ∙ append_assoc front pre (by ++ replaced (c ∷ text) by 0 post)
                    ∙ ap (λ t. front ++ t) (sym r)))
    ]

-- For every text but the empty one, `replace` ends after at most as many rounds as the subject has
-- characters and one more, and has replaced each occurrence from the left once.
pub replace_loop_lem :
    (text subject by : Bytes) (fuel : ℕ)
    → text ≢ []
    → length subject < fuel
    → replace_loop fuel subject text by 0 ≡ some (replaced text by 0 subject)
replace_loop_lem [] subject by fuel some_text enough = absurd (some_text refl)
replace_loop_lem (c ∷ text) subject by fuel some_text enough =
    replace_loop-replaced c text by fuel [] subject enough

find_in-nothing : (pos : ℕ) (s : Bytes) → find_in [] pos s ≡ some pos
unfolding find_in
find_in-nothing pos [] = refl
find_in-nothing pos (x ∷ s) = refl

endless :
    (by : Bytes) (fuel : ℕ) (front rest : Bytes)
    → replace_loop fuel (front ++ rest) [] by (length front) ≡ none
unfolding replace_loop
endless by zero front rest = refl
endless by (suc fuel) front rest =
    let further : length (front ++ by) ≡ length front + length by = length-append front by in
    replace_round fuel (front ++ rest) [] by (length front)
      (find-append [] front rest ∙ find_in-nothing (length front) rest)
    ∙ rw (spliced [] by front rest, ← further) (endless by fuel (front ++ by) rest)

-- For the empty text no number of rounds is enough: `replace` does not end.
pub replace_loop-endless :
    (subject by : Bytes) (fuel : ℕ) → replace_loop fuel subject [] by 0 ≡ none
replace_loop-endless subject by fuel = endless by fuel [] subject
