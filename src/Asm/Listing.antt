-- ===== src/Asm/Listing.antt =====
-- extract/asmextractor.cc: `parse` on a whole listing, as a relation between lines and functions.
use extractor.Base.{
  ℕ, ◌+◌, ◌≡◌, refl, ◌∙◌, true, none, some, Option, List, [], ◌∷◌, ◌++◌, arith, Bytes, length,
  append_assoc, append-nil, length-append, ok,
}
use extractor.Regex.{Match, search_regex, group}
use extractor.Extractor.Parse.{getlines}
use extractor.Asm.{AsmFunction, new_function, construct, asm_line, asm_lines, add_all, asm_parse}
use extractor.Asm.Patterns.{function_start_regex}
use extractor.Asm.Nesting.{
  Closes, Inside, state, state_eq, asm_lines_step, asm_lines_over, asm_lines_function, pieces_assoc,
  insert_assoc, asm_lines-Inside,
}

-- `Listing n lines fs`: behind `n` lines of the file and outside every function, `lines` hold the
-- functions `fs`.
pub data Listing : ℕ → List Bytes → List AsmFunction → Type 0 where
  over : {n : ℕ} → Listing n [] []
  text :
      {n : ℕ} {line : Bytes} {lines : List Bytes} {fs : List AsmFunction}
      → search_regex function_start_regex line ≡ none
      → Listing (n + 1) lines fs
      → Listing n (line ∷ lines) fs
  function :
      {n k : ℕ} {line stop : Bytes} {m : Match} {inner lines : List Bytes} {g : AsmFunction}
      {fs gs : List AsmFunction}
      → search_regex function_start_regex line ≡ some m
      → Inside (n + 1) inner (new_function (n + 1) (group m 0 1 line)) g gs
      → Closes stop
      → k ≡ n + 1 + length inner
      → Listing (k + 1) lines fs
      → Listing n (line ∷ (inner ++ stop ∷ lines)) (gs ++ (record g { end = k + 1 } ∷ fs))

asm_line_outside :
    (path : Bytes) (n : ℕ) (line : Bytes) (lines : List Bytes) (fs : List AsmFunction)
    → search_regex function_start_regex line ≡ none
    → asm_line n line (state path lines fs []) ≡ ok (state path (lines ++ line ∷ []) fs [])
unfolding asm_line
asm_line_outside path n line lines fs plain = rw (plain, asm_line) refl

asm_lines-Listing :
    {n : ℕ} {lines : List Bytes} {fs : List AsmFunction}
    → Listing n lines fs
    → (path : Bytes) (above : List Bytes) (gs : List AsmFunction)
    → asm_lines n lines (state path above gs [])
      ≡ ok (n + length lines, state path (above ++ lines) (gs ++ fs) [])
asm_lines-Listing (over {n = n}) path above gs =
    let none_left : n ≡ n + 0 = omega arith in
    asm_lines_over n _ ∙ rw (← none_left, append-nil above, append-nil gs) refl
asm_lines-Listing (text {n = n} {line = line} {lines = lines} plain h) path above gs =
    asm_lines_step n line lines _ (asm_line_outside path (n + 1) line above gs plain)
    ∙ asm_lines-Listing h path (above ++ line ∷ []) gs
    ∙ state_eq (omega arith) (append_assoc above (line ∷ []) lines) refl
asm_lines-Listing
      (function {n = n} {k = k} {line = line} {stop = stop} {m = m} {inner = inner} {lines = lines}
        {g = g} {fs = fs} {gs = hs} starts hi closes count h)
      path above gs =
    let shut = record g { end = k + 1 } in
    asm_lines_function path n k line stop m inner lines above g gs hs [] starts
      (asm_lines-Inside hi path (above ++ line ∷ []) gs []) closes count
    ∙ asm_lines-Listing h path (((above ++ line ∷ []) ++ inner) ++ stop ∷ [])
        ((gs ++ hs) ++ shut ∷ [])
    ∙ state_eq (omega (arith, count, length-append inner (stop ∷ lines)))
        (pieces_assoc above line inner stop lines) (insert_assoc gs hs shut fs)

-- A listing whose functions nest is parsed into these functions, in the order of their ends, each
-- with the lines of its first and its last directive; behind them stands "all".
pub asm_parse-Listing :
    (files : Bytes → Option Bytes) (path content : Bytes) {fs : List AsmFunction}
    → files path ≡ some content
    → Listing 0 (getlines content) fs
    → asm_parse files (construct path)
      ≡ ok (add_all (length (getlines content)) (state path (getlines content) fs []), true)
unfolding asm_parse
asm_parse-Listing files path content {fs = fs} read h =
    let parsed = asm_lines-Listing h path [] [] in
    let counted : 0 + length (getlines content) ≡ length (getlines content) = omega arith in
    rw (read, asm_parse, parsed, counted) refl
