-- ===== src/Asm.antt =====
-- extract/asmextractor.h and extract/asmextractor.cc: the extractor of functions from assembler
-- listings.
pub mod Patterns
pub mod Safe
pub mod Generator
pub mod Code
pub mod Nesting
pub mod Listing
pub mod Files
use extractor.Base.{
  ℕ, zero, suc, ◌+◌, Bool, true, false, Option, none, some, List, [], ◌∷◌, ◌++◌, Bytes, codes,
  length, if◌then◌else◌, Outcome, ok, fault, undefined, ◌>>=◌,
}
use extractor.Regex.{Match, search_regex, is_found, group}
use extractor.Extractor.Parse.{getlines}
use Patterns.{function_start_regex, function_end_regex, function_name_regex}

pub record AsmFunction : Type 0 where
  pub begin : ℕ
  pub end : ℕ
  pub prolog_end : ℕ
  pub epilog_begin : ℕ
  pub name : Bytes
  pub assigned_name : Bytes
  pub omitted_lines : List ℕ

-- The constructor `AsmFunction(begin, name)`.
abbrev pub new_function : ℕ → Bytes → AsmFunction
new_function begin name = record {
  begin = begin;
  end = 0;
  prolog_end = 0;
  epilog_begin = 0;
  name = name;
  assigned_name = name;
  omitted_lines = [];
}

-- `open_functions` is the stack, its top first.
pub record AsmExtractor : Type 0 where
  pub path : Bytes
  pub lines_of_file : List Bytes
  pub functions : List AsmFunction
  pub open_functions : List AsmFunction

abbrev pub construct : Bytes → AsmExtractor
construct path = record { path = path; lines_of_file = []; functions = []; open_functions = [] }

-- A `.size` line ends the function on top of the stack.
unfoldable pub close_function : ℕ → List AsmFunction → AsmExtractor → AsmExtractor
close_function number [] s = s
close_function number (f ∷ below) s = record s {
  functions = s.functions ++ record f { end = number } ∷ [];
  open_functions = below;
}

-- A `;=` line names the function on top of the stack; `top()` of an empty stack is undefined.
unfoldable pub name_function : ℕ → Bytes → List AsmFunction → AsmExtractor → Outcome AsmExtractor
name_function number name [] s = fault undefined
name_function number name (f ∷ below) s =
    let named = record f { assigned_name = name; omitted_lines = f.omitted_lines ++ number ∷ [] } in
    ok (record s { open_functions = named ∷ below })

-- A line within an open function: both tests are made.
unfoldable pub inside_line : ℕ → Bytes → AsmExtractor → Outcome AsmExtractor
unfolding close_function name_function
inside_line number line s =
    let t =
      if is_found function_end_regex line then close_function number s.open_functions s else s in
    elim (search_regex function_name_regex line) [
      | none ↦ ok t
      | some m ↦ name_function number (group m 0 1 line) t.open_functions t
    ]

-- One round of the loop; `number` is `fileLineNumber` after its increment.
unfoldable pub asm_line : ℕ → Bytes → AsmExtractor → Outcome AsmExtractor
unfolding inside_line
asm_line number line s =
    let t = record s { lines_of_file = s.lines_of_file ++ line ∷ [] } in
    elim (search_regex function_start_regex line) [
      | some m ↦
          ok (record t {
            open_functions = new_function number (group m 0 1 line) ∷ t.open_functions;
          })
      | none ↦ elim t.open_functions [ [] ↦ ok t | f ∷ below ↦ inside_line number line t ]
    ]

-- `while (std::getline(fileStream, line))`; the number of lines read comes back.
unfoldable pub asm_lines : ℕ → List Bytes → AsmExtractor → Outcome (ℕ × AsmExtractor)
unfolding asm_line
asm_lines number [] s = ok (number, s)
asm_lines number (line ∷ lines) s = do
  t ← asm_line (number + 1) line s
  asm_lines (number + 1) lines t

-- Behind the loop: the function "all" spans the file.
abbrev pub whole_file : ℕ → AsmFunction
whole_file number = record (new_function 1 (codes "all")) { end = number + 1 }

unfoldable pub add_all : ℕ → AsmExtractor → AsmExtractor
add_all number s = record s { functions = s.functions ++ whole_file number ∷ [] }

-- `parse()`; `files` gives the content of each file that can be opened.
unfoldable pub asm_parse : (Bytes → Option Bytes) → AsmExtractor → Outcome (AsmExtractor × Bool)
unfolding asm_lines add_all getlines
asm_parse files s = elim (files s.path) [
  | none ↦ ok (s, false)
  | some content ↦ do (number, t) ← asm_lines 0 (getlines content) s; ok (add_all number t, true)
]
