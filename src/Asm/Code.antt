-- ===== src/Asm/Code.antt =====
-- extract/asciidocasmgenerator.cc: the loop of `generate` over the lines of a function.
use extractor.Base.{
  take-append, ℕ, zero, suc, ◌+◌, ◌-◌, ◌≤◌, ◌≡◌, refl, sym, ap, ◌∙◌, Bool, false, ◌||◌, any_of, inl,
  inr, List, [], ◌∷◌, ◌++◌, arith, Bytes, length, length-append, take, drop, slice, get_elem?-some,
  drop-get_elem?, ok, if◌then◌else◌, Bool-cases, ◌==◌,
}
use extractor.Asm.{AsmFunction, whole_file}
use extractor.Asm.Generator.{is_omitted, function_lines, last_line, function_code}

-- The lines with their ends.
abbrev pub unlines : List Bytes → Bytes
unlines [] = []
unlines (line ∷ lines) = line ++ (10 ∷ unlines lines)

-- Whether a list of line numbers holds a number
abbrev pub is_listed : ℕ → List ℕ → Bool
is_listed number [] = false
is_listed number (o ∷ omitted) = o == number || is_listed number omitted

-- The lines whose numbers are not listed, where `number` is that of the first line; a file counts
-- its lines from 1.
abbrev pub visible_lines : List ℕ → ℕ → List Bytes → List Bytes
visible_lines omitted number [] = []
visible_lines omitted number (line ∷ lines) =
    let rest = visible_lines omitted (suc number) lines in
    if is_listed number omitted then rest else line ∷ rest

any_of-is_listed : (number : ℕ) (os : List ℕ) → any_of (λ o. o == number) os ≡ is_listed number os
any_of-is_listed number [] = refl
any_of-is_listed number (o ∷ os) = ap (λ b. o == number || b) (any_of-is_listed number os)

is_omitted-is_listed :
    (f : AsmFunction) (l : ℕ) → is_omitted f l ≡ is_listed (suc l) f.omitted_lines
unfolding is_omitted
is_omitted-is_listed f l =
    let number : l + 1 ≡ suc l = omega arith in
    rw (number, is_omitted) (any_of-is_listed (suc l) f.omitted_lines)

function_lines_lem :
    (lines : List Bytes) (f : AsmFunction) (l rounds : ℕ)
    → rounds ≤ length lines - l
    → function_lines lines f l rounds
      ≡ ok (unlines (visible_lines f.omitted_lines (suc l) (take rounds (drop l lines))))
unfolding function_lines
function_lines_lem lines f l zero h = refl
function_lines_lem lines f l (suc rounds) h =
    let (line, at) = get_elem?-some lines l (omega arith) in
    let rest = function_lines_lem lines f (suc l) rounds (omega arith) in
    let listed = is_omitted-is_listed f l in
    elim (Bool-cases (is_omitted f l)) [
      | inl omitted ↦
          let known = sym listed ∙ omitted in
          rw (drop-get_elem? lines l at, omitted, known, rest) refl
      | inr shown ↦
          let known = sym listed ∙ shown in
          rw (drop-get_elem? lines l at, shown, known, at, rest) refl
    ]

pub function_code_lem :
    (lines : List Bytes) (f : AsmFunction)
    → 1 ≤ f.end
    → f.begin ≤ f.end
    → f.end ≤ length lines + 1
    → function_code lines f
      ≡ ok (unlines (visible_lines f.omitted_lines (suc f.begin) (slice f.begin (f.end - 1) lines)))
unfolding function_code last_line
function_code_lem lines f positive ordered closed =
    let last : (f.end == 0) ≡ false = ground arith in
    rw (last, last_line) (function_lines_lem lines f f.begin (f.end - 1 - f.begin) (omega arith))

-- Where no number is listed, all the lines are shown.
visible_lines-all : (number : ℕ) (lines : List Bytes) → visible_lines [] number lines ≡ lines
visible_lines-all number [] = refl
visible_lines-all number (line ∷ lines) =
    ap (λ rest. line ∷ rest) (visible_lines-all (suc number) lines)

drop_behind {ℓ} : {A : Type ℓ} (xs ys : List A) (y : A) → drop (suc (length xs)) (xs ++ y ∷ ys) ≡ ys
drop_behind [] ys y = refl
drop_behind (x ∷ xs) ys y = drop_behind xs ys y

-- The file of a function shows the lines between its first and its last directive, in order and
-- without those whose numbers, counted from 1 in the listing, are among its omitted lines.
pub function_code-between :
    (above inner below : List Bytes) (start stop : Bytes) (f : AsmFunction)
    → f.begin ≡ length above + 1
    → f.end ≡ length above + length inner + 2
    → function_code (above ++ start ∷ (inner ++ stop ∷ below)) f
      ≡ ok (unlines (visible_lines f.omitted_lines (length above + 2) inner))
function_code-between above inner below start stop f first last =
    let lines = above ++ start ∷ (inner ++ stop ∷ below) in
    let count = length-append above (start ∷ (inner ++ stop ∷ below)) in
    let count' = length-append inner (stop ∷ below) in
    let code =
      function_code_lem lines f (omega arith) (omega arith) (omega (arith, count, count')) in
    let width : f.end - 1 - f.begin ≡ length inner = omega arith in
    let behind : length above + 1 ≡ suc (length above) = omega arith in
    let number : suc (suc (length above)) ≡ length above + 2 = omega arith in
    code
    ∙ rw
        (
          width,
          first,
          behind,
          number,
          drop_behind above (inner ++ stop ∷ below) start,
          take-append inner (stop ∷ below),
        )
        refl

take-all {ℓ} : {A : Type ℓ} (xs : List A) → take (length xs) xs ≡ xs
take-all [] = refl
take-all (x ∷ xs) = rw (take-all xs) refl

length-drop_one {ℓ} : {A : Type ℓ} (xs : List A) → length xs + 1 - 1 - 1 ≡ length (drop 1 xs)
length-drop_one [] = omega arith
length-drop_one (x ∷ xs) = omega arith

-- The file of "all" shows the listing without its first line.
pub whole_code :
    (lines : List Bytes)
    → function_code lines (whole_file (length lines)) ≡ ok (unlines (drop 1 lines))
whole_code lines =
    let code =
      function_code_lem lines (whole_file (length lines)) (omega arith) (omega arith)
        (omega arith) in
    let to_end : length lines + 1 - 1 - 1 ≡ length (drop 1 lines) = length-drop_one lines in
    code ∙ rw (to_end, take-all (drop 1 lines), visible_lines-all 2 (drop 1 lines)) refl
