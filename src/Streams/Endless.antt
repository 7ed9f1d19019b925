-- ===== src/Streams/Endless.antt =====
-- libwm/algorithm.h and libwm/algorithm.cc: the loops over containers on a text without a closing
-- bracket.
use extractor.Base.{
  ℕ, zero, suc, ◌≡◌, refl, Bool, true, false, not, ◌&&◌, List, [], ◌∷◌, none, Bytes, All, bytes_eq,
  codes, is_space, is_digit, is_empty, ◌==◌, if◌then◌else◌, Bool-cases, inl, inr,
}
use extractor.Streams.Input.{
  InStream, is_good, skip_spaces, take_while, drop_while, behind, unread, read_word, read_digits,
  read_signed, read_number, read_second, read_first, read_pair, read_items, read_tokens,
}

-- No byte is a closing bracket.
abbrev pub NoClose : Bytes → Type 0
NoClose = All (λ c. (c == 93) ≡ false)

drop_while-All : (p : ℕ → Bool) (s : Bytes) → NoClose s → NoClose (drop_while p s)
unfolding drop_while
drop_while-All p [] h = tt
drop_while-All p (c ∷ s) h = elim (Bool-cases (p c)) [
  | inl holds ↦ rw holds (drop_while-All p s h.1)
  | inr other ↦ rw other h
]

take_while-All : (p : ℕ → Bool) (s : Bytes) → NoClose s → NoClose (take_while p s)
unfolding take_while
take_while-All p [] h = tt
take_while-All p (c ∷ s) h = elim (Bool-cases (p c)) [
  | inl holds ↦ rw holds (h.0, take_while-All p s h.1)
  | inr other ↦ rw other tt
]

skip_spaces-All : (s : Bytes) → NoClose s → NoClose (skip_spaces s)
unfolding skip_spaces
skip_spaces-All [] h = tt
skip_spaces-All (c ∷ s) h = elim (Bool-cases (is_space c)) [
  | inl holds ↦ rw holds (skip_spaces-All s h.1)
  | inr other ↦ rw other h
]

unread-All : (input : InStream) → NoClose input.rest → NoClose (unread input).rest
unfolding unread
unread-All input h = elim (Bool-cases (is_good input)) [
  | inl good ↦ rw good tt
  | inr bad ↦ rw bad h
]

-- What reading leaves behind has no bracket either.
abbrev pub KeepsNoClose : {A : Type 0} → (InStream → A × InStream) → Type 0
KeepsNoClose read = (input : InStream) → NoClose input.rest → NoClose (read input).1.rest

if_rest :
    {A : Type 0} (b : Bool) (x y : A × InStream)
    → NoClose x.1.rest
    → NoClose y.1.rest
    → NoClose (if b then x else y).1.rest
if_rest true x y hx hy = hx
if_rest false x y hx hy = hy

pub read_word-KeepsNoClose : (token : Bytes) → KeepsNoClose (read_word token)
unfolding read_word behind
read_word-KeepsNoClose token input h =
    let s = skip_spaces input.rest in
    let p : ℕ → Bool = λ c. not (is_space c) in
    if_rest (is_good input && not (is_empty s)) _ _
      (drop_while-All p s (skip_spaces-All input.rest h)) (unread-All input h)

if_word :
    (b : Bool) (x y : Bytes × InStream) → NoClose x.0 → NoClose y.0 → NoClose (if b then x else y).0
if_word true x y hx hy = hx
if_word false x y hx hy = hy

pub read_word-NoClose :
    (token : Bytes) (input : InStream)
    → NoClose token
    → NoClose input.rest
    → NoClose (read_word token input).0
unfolding read_word behind
read_word-NoClose token input ht h =
    let s = skip_spaces input.rest in
    let p : ℕ → Bool = λ c. not (is_space c) in
    if_word (is_good input && not (is_empty s)) _ _
      (take_while-All p s (skip_spaces-All input.rest h)) ht

read_digits-All :
    (negative : Bool) (s : Bytes) → NoClose s → NoClose (read_digits negative s).1.rest
unfolding read_digits behind
read_digits-All negative s h = drop_while-All is_digit s h

read_signed-All : (s : Bytes) → NoClose s → NoClose (read_signed s).1.rest
unfolding read_signed
read_signed-All [] h = read_digits-All false [] h
read_signed-All (c ∷ s) h =
    if_rest (c == b'-') _ _ (read_digits-All true s h.1)
      (if_rest (c == b'+') _ _ (read_digits-All false s h.1) (read_digits-All false (c ∷ s) h))

read_number-KeepsNoClose : (n : ℕ) → KeepsNoClose (read_number n)
unfolding read_number
read_number-KeepsNoClose n input h =
    let s = skip_spaces input.rest in
    if_rest (is_good input && not (is_empty s)) _ _
      (read_signed-All s (skip_spaces-All input.rest h)) (unread-All input h)

read_second-KeepsNoClose :
    (p : ℕ × ℕ) (first : ℕ) (token : Bytes) → KeepsNoClose (read_second p first token)
unfolding read_second
read_second-KeepsNoClose p first token in3 h =
    let h4 = read_number-KeepsNoClose 0 in3 h in
    let h5 = read_word-KeepsNoClose token (read_number 0 in3).1 h4 in
    if_rest (not (bytes_eq (read_word token (read_number 0 in3).1).0 (codes ")"))) _ _ h5 h5

read_first-KeepsNoClose : (p : ℕ × ℕ) (token : Bytes) → KeepsNoClose (read_first p token)
unfolding read_first
read_first-KeepsNoClose p token in1 h =
    let (first, in2) = read_number 0 in1 in
    let (word, in3) = read_word token in2 in
    let h3 = read_word-KeepsNoClose token in2 (read_number-KeepsNoClose 0 in1 h) in
    if_rest (not (bytes_eq word (codes ","))) (p, in3) (read_second p first word in3) h3
      (read_second-KeepsNoClose p first word in3 h3)

pub read_pair-KeepsNoClose : (p : ℕ × ℕ) → KeepsNoClose (read_pair p)
unfolding read_pair
read_pair-KeepsNoClose p input h =
    let (word, in1) = read_word [] input in
    let h1 = read_word-KeepsNoClose [] input h in
    if_rest (not (bytes_eq word (codes "("))) (p, in1) (read_first p word in1) h1
      (read_first-KeepsNoClose p word in1 h1)

NoClose-more : (token : Bytes) → NoClose token → bytes_eq token (codes "]") ≡ false
unfolding bytes_eq
NoClose-more [] h = refl
NoClose-more (c ∷ token) h = rw h.0 refl

-- The loop over a vector never meets its end, whatever the elements are.
pub read_items-endless :
    {A : Type 0} (read : A → InStream → A × InStream) (item : A) (fuel : ℕ) (token : Bytes)
    (v : List A) (input : InStream)
    → KeepsNoClose (read item)
    → NoClose token
    → NoClose input.rest
    → read_items read item fuel token v input ≡ none
unfolding read_items
read_items-endless read item zero token v input keeps ht h = refl
read_items-endless read item (suc fuel) token v input keeps ht h =
    let h1 = keeps input h in
    rw (NoClose-more token ht, read_items)
      (read_items-endless read item fuel _ _ _ keeps (read_word-NoClose token _ ht h1)
        (read_word-KeepsNoClose token _ h1))

-- So does the loop over strings.
pub read_tokens-endless :
    (put : Bytes → List Bytes → List Bytes) (fuel : ℕ) (token : Bytes) (xs : List Bytes)
    (input : InStream)
    → NoClose token
    → NoClose input.rest
    → read_tokens put fuel token xs input ≡ none
unfolding read_tokens
read_tokens-endless put zero token xs input ht h = refl
read_tokens-endless put (suc fuel) token xs input ht h =
    rw (NoClose-more token ht, read_tokens)
      (read_tokens-endless put fuel _ _ _ (read_word-NoClose token input ht h)
        (read_word-KeepsNoClose token input h))
