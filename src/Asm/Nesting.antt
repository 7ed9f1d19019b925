-- ===== src/Asm/Nesting.antt =====
-- extract/asmextractor.cc: the lines within a function, as a relation that counts the directives
-- like brackets.
use extractor.Base.{
  ℕ, ◌+◌, ◌≡◌, refl, ap, ◌∙◌, sym, true, false, none, some, List, [], ◌∷◌, ◌++◌, arith, Bytes,
  length, append_assoc, append-nil, length-append, Outcome, ok, fault, ◌>>=◌,
}
use extractor.Regex.{Match, search_regex, is_found, group}
use extractor.Asm.{
  AsmFunction, new_function, AsmExtractor, close_function, name_function, inside_line, asm_line,
  asm_lines,
}
use extractor.Asm.Patterns.{function_start_regex, function_end_regex, function_name_regex}
use extractor.Asm.Safe.{function_name_regex-none}

-- A line that ends the innermost function.
pub record Closes (line : Bytes) : Type 0 where
  pub no_start : search_regex function_start_regex line ≡ none
  pub ends : is_found function_end_regex line ≡ true

-- A line without a directive.
pub record IsText (line : Bytes) : Type 0 where
  pub no_start : search_regex function_start_regex line ≡ none
  pub no_end : is_found function_end_regex line ≡ false
  pub no_name : search_regex function_name_regex line ≡ none

-- A line that names the innermost function.
pub record Names (line : Bytes) (m : Match) : Type 0 where
  pub no_start : search_regex function_start_regex line ≡ none
  pub no_end : is_found function_end_regex line ≡ false
  pub named : search_regex function_name_regex line ≡ some m

abbrev pub rename : ℕ → Bytes → AsmFunction → AsmFunction
rename number name f = record f {
  assigned_name = name;
  omitted_lines = f.omitted_lines ++ number ∷ [];
}

-- `Inside n lines f f' fs`: behind `n` lines of the file, `lines` stand within the function `f`,
-- make it `f'`, and hold the functions `fs`, in the order of their ends.
pub data Inside : ℕ → List Bytes → AsmFunction → AsmFunction → List AsmFunction → Type 0 where
  over : {n : ℕ} {f : AsmFunction} → Inside n [] f f []
  text :
      {n : ℕ} {line : Bytes} {lines : List Bytes} {f f' : AsmFunction} {fs : List AsmFunction}
      → IsText line
      → Inside (n + 1) lines f f' fs
      → Inside n (line ∷ lines) f f' fs
  naming :
      {n : ℕ} {line : Bytes} {m : Match} {lines : List Bytes} {f f' : AsmFunction}
      {fs : List AsmFunction}
      → Names line m
      → Inside (n + 1) lines (rename (n + 1) (group m 0 1 line) f) f' fs
      → Inside n (line ∷ lines) f f' fs
  nested :
      {n k : ℕ} {line stop : Bytes} {m : Match} {inner lines : List Bytes} {f f' g : AsmFunction}
      {fs gs : List AsmFunction}
      → search_regex function_start_regex line ≡ some m
      → Inside (n + 1) inner (new_function (n + 1) (group m 0 1 line)) g gs
      → Closes stop
      → k ≡ n + 1 + length inner
      → Inside (k + 1) lines f f' fs
      → Inside n (line ∷ (inner ++ stop ∷ lines)) f f' (gs ++ (record g { end = k + 1 } ∷ fs))

abbrev pub state : Bytes → List Bytes → List AsmFunction → List AsmFunction → AsmExtractor
state path lines functions open_functions = record {
  path = path;
  lines_of_file = lines;
  functions = functions;
  open_functions = open_functions;
}

module _ (path : Bytes) (n : ℕ) (line : Bytes) (lines : List Bytes)
    (fs below : List AsmFunction) where
  asm_line_text :
      (f : AsmFunction)
      → IsText line
      → asm_line n line (state path lines fs (f ∷ below))
        ≡ ok (state path (lines ++ line ∷ []) fs (f ∷ below))
  unfolding asm_line
  asm_line_text f plain =
      rw (plain.no_start, asm_line, inside_line, plain.no_name, plain.no_end) refl

  asm_line_naming :
      (m : Match) (f : AsmFunction)
      → Names line m
      → asm_line n line (state path lines fs (f ∷ below))
        ≡ ok (state path (lines ++ line ∷ []) fs (rename n (group m 0 1 line) f ∷ below))
  unfolding asm_line inside_line name_function
  asm_line_naming m f names =
      rw (names.no_start, asm_line, inside_line, names.named, names.no_end) refl

  pub asm_line_start :
      (m : Match)
      → search_regex function_start_regex line ≡ some m
      → asm_line n line (state path lines fs below)
        ≡ ok (state path (lines ++ line ∷ []) fs (new_function n (group m 0 1 line) ∷ below))
  unfolding asm_line
  asm_line_start m starts = rw (starts, asm_line) refl

  pub asm_line_stop :
      (g : AsmFunction)
      → Closes line
      → asm_line n line (state path lines fs (g ∷ below))
        ≡ ok (state path (lines ++ line ∷ []) (fs ++ record g { end = n } ∷ []) below)
  unfolding asm_line inside_line close_function
  asm_line_stop g closes =
      rw
        (
          closes.no_start,
          asm_line,
          inside_line,
          function_name_regex-none line closes.ends,
          closes.ends,
        )
        refl

pub asm_lines_step :
    (n : ℕ) (line : Bytes) (lines : List Bytes) (s : AsmExtractor) {t : AsmExtractor}
    → asm_line (n + 1) line s ≡ ok t
    → asm_lines n (line ∷ lines) s ≡ asm_lines (n + 1) lines t
unfolding asm_lines
asm_lines_step n line lines s step = ap (λ r. r >>= λ t. asm_lines (n + 1) lines t) step

pub state_eq :
    {a b : ℕ} {xs ys : List Bytes} {fs gs os : List AsmFunction} {path : Bytes}
    → a ≡ b
    → xs ≡ ys
    → fs ≡ gs
    → ◌≡◌ {A = Outcome (ℕ × AsmExtractor)}
        (ok (a, state path xs fs os))
        (ok (b, state path ys gs os))
state_eq ea ex ef = rw (ea, ex, ef) refl

pub asm_lines_over : (n : ℕ) (s : AsmExtractor) → asm_lines n [] s ≡ ok (n, s)
unfolding asm_lines
asm_lines_over n s = refl

pub asm_lines-append :
    (n : ℕ) (xs ys : List Bytes) (s : AsmExtractor)
    → asm_lines n (xs ++ ys) s ≡ (asm_lines n xs s >>= λ r. asm_lines r.0 ys r.1)
unfolding asm_lines
asm_lines-append n [] ys s = refl
asm_lines-append n (x ∷ xs) ys s =
    elim (asm_line (n + 1) x s)
      as (λ r.
        (r >>= λ t. asm_lines (n + 1) (xs ++ ys) t)
        ≡ (r >>= (λ t. asm_lines (n + 1) xs t) >>= λ r. asm_lines r.0 ys r.1)) [
          | ok t ↦ asm_lines-append (n + 1) xs ys t
          | fault why ↦ refl
        ]

-- A function that opens, holds `inner` and closes, where `inner` leaves it on top.
pub asm_lines_function :
    (path : Bytes) (n k : ℕ) (line stop : Bytes) (m : Match) (inner lines above : List Bytes)
    (g : AsmFunction) (gs hs below : List AsmFunction)
    → search_regex function_start_regex line ≡ some m
    → asm_lines
        (n + 1)
        inner
        (state path (above ++ line ∷ []) gs (new_function (n + 1) (group m 0 1 line) ∷ below))
      ≡ ok (n + 1 + length inner, state path ((above ++ line ∷ []) ++ inner) (gs ++ hs) (g ∷ below))
    → Closes stop
    → k ≡ n + 1 + length inner
    → asm_lines n (line ∷ (inner ++ stop ∷ lines)) (state path above gs below)
      ≡ asm_lines (k + 1) lines (
          state path
            (((above ++ line ∷ []) ++ inner) ++ stop ∷ [])
            ((gs ++ hs) ++ record g { end = k + 1 } ∷ [])
            below)
asm_lines_function path n k line stop m inner lines above g gs hs below starts within closes count =
    let body = (above ++ line ∷ []) ++ inner in
    asm_lines_step n line (inner ++ stop ∷ lines) _
      (asm_line_start path (n + 1) line above gs below m starts)
    ∙ asm_lines-append (n + 1) inner (stop ∷ lines) _
    ∙ ap (λ r. r >>= λ r. asm_lines r.0 (stop ∷ lines) r.1) within
    ∙ ap (λ c. asm_lines c (stop ∷ lines) (state path body (gs ++ hs) (g ∷ below))) (sym count)
    ∙ asm_lines_step k stop lines _ (asm_line_stop path (k + 1) stop body (gs ++ hs) below g closes)

-- The pieces of such a function, as one list.
pub pieces_assoc {ℓ} :
    {A : Type ℓ} (above : List A) (line : A) (inner : List A) (stop : A) (lines : List A)
    → (((above ++ line ∷ []) ++ inner) ++ stop ∷ []) ++ lines
      ≡ above ++ line ∷ (inner ++ stop ∷ lines)
pieces_assoc above line inner stop lines =
    append_assoc ((above ++ line ∷ []) ++ inner) (stop ∷ []) lines
    ∙ append_assoc (above ++ line ∷ []) inner (stop ∷ lines)
    ∙ append_assoc above (line ∷ []) (inner ++ stop ∷ lines)

pub insert_assoc {ℓ} :
    {A : Type ℓ} (gs hs : List A) (g : A) (fs : List A)
    → ((gs ++ hs) ++ g ∷ []) ++ fs ≡ gs ++ (hs ++ g ∷ fs)
insert_assoc gs hs g fs = append_assoc (gs ++ hs) (g ∷ []) fs ∙ append_assoc gs hs (g ∷ fs)

pub asm_lines-Inside :
    {n : ℕ} {lines : List Bytes} {f f' : AsmFunction} {fs : List AsmFunction}
    → Inside n lines f f' fs
    → (path : Bytes) (above : List Bytes) (gs below : List AsmFunction)
    → asm_lines n lines (state path above gs (f ∷ below))
      ≡ ok (n + length lines, state path (above ++ lines) (gs ++ fs) (f' ∷ below))
asm_lines-Inside (over {n = n} {f = f}) path above gs below =
    let none_left : n ≡ n + 0 = omega arith in
    asm_lines_over n _ ∙ rw (← none_left, append-nil above, append-nil gs) refl
asm_lines-Inside (text {n = n} {line = line} {lines = lines} {f = f} plain h) path above gs below =
    let rest = asm_lines-Inside h path (above ++ line ∷ []) gs below in
    asm_lines_step n line lines _ (asm_line_text path (n + 1) line above gs below f plain)
    ∙ rest
    ∙ state_eq (omega arith) (append_assoc above (line ∷ []) lines) refl
asm_lines-Inside (naming {n = n} {line = line} {m = m} {lines = lines} {f = f} names h) path above
      gs below =
    let rest = asm_lines-Inside h path (above ++ line ∷ []) gs below in
    asm_lines_step n line lines _ (asm_line_naming path (n + 1) line above gs below m f names)
    ∙ rest
    ∙ state_eq (omega arith) (append_assoc above (line ∷ []) lines) refl
asm_lines-Inside
      (nested {n = n} {k = k} {line = line} {stop = stop} {m = m} {inner = inner} {lines = lines}
        {f = f} {f' = f'} {g = g} {fs = fs} {gs = hs} starts hi closes count h)
      path above gs below =
    let shut = record g { end = k + 1 } in
    asm_lines_function path n k line stop m inner lines above g gs hs (f ∷ below) starts
      (asm_lines-Inside hi path (above ++ line ∷ []) gs (f ∷ below)) closes count
    ∙ asm_lines-Inside h path (((above ++ line ∷ []) ++ inner) ++ stop ∷ [])
        ((gs ++ hs) ++ shut ∷ []) below
    ∙ state_eq (omega (arith, count, length-append inner (stop ∷ lines)))
        (pieces_assoc above line inner stop lines) (insert_assoc gs hs shut fs)
