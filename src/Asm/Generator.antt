-- ===== src/Asm/Generator.antt =====
-- extract/asciidocasmgenerator.h and extract/asciidocasmgenerator.cc: what `generate` writes to the
-- file of each function, and the list of the functions.
use extractor.Base.{
  ℕ, zero, suc, ◌+◌, ◌-◌, Bool, true, false, Option, none, some, List, [], ◌∷◌, ◌++◌, Bytes, codes,
  to_string, ◌==◌, is_empty, ◌&&◌, ◌||◌, any_of, get_elem?, if◌then◌else◌, Outcome, ok, fault,
  undefined, ◌>>=◌,
}
use extractor.Boost.{Boost}
use extractor.Asm.{AsmFunction, AsmExtractor, construct, asm_parse}

pub record AsmGenerator : Type 0 where
  pub extractor : AsmExtractor
  pub sub_directory_name : Bytes
  pub output_file_path : Bytes
  pub skip_source_caption : Bool
  pub line_numbers : Bool
  pub indent_level : ℕ

-- The constructor; the second path is the first one with `.axtractor` in place of its extension.
unfoldable pub construct_generator : Bytes → Bytes → AsmGenerator
construct_generator file output_file_path = record {
  extractor = construct file;
  sub_directory_name = codes ".extractor";
  output_file_path = output_file_path;
  skip_source_caption = false;
  line_numbers = true;
  indent_level = 0;
}

abbrev caption : Bytes
caption =
    codes ".Zeilen aus der Datei link:{srcbase}/{srcdir}/%f.html[`%f`,window=\"newwindows\"] %s"

-- `operator<<` of a function, as the list of the functions has it.
unfoldable pub function_entry : AsmFunction → Bytes
function_entry f =
    codes "F["
    ++ (f.name
        ++ (b','
            ∷ (f.assigned_name
                ++ (b',' ∷ (to_string f.begin ++ (b',' ∷ (to_string f.end ++ codes "]")))))))

-- The output file: an entry and the end of a line for each function.
unfoldable pub function_entries : List AsmFunction → Bytes
unfolding function_entry
function_entries [] = []
function_entries (f ∷ fs) = function_entry f ++ (10 ∷ function_entries fs)

-- `std::find(begin(omitted), end(omitted), l + 1) != end(omitted)`
unfoldable pub is_omitted : AsmFunction → ℕ → Bool
is_omitted f l = any_of (λ o. o == l + 1) f.omitted_lines

-- `for (l = begin; l < end - 1; ++l)`, where `rounds` of them are left; `operator[]` beyond the end
-- of the lines is undefined.
unfoldable pub function_lines : List Bytes → AsmFunction → ℕ → ℕ → Outcome Bytes
unfolding is_omitted
function_lines lines f l zero = ok []
function_lines lines f l (suc rounds) = do
  let rest = function_lines lines f (suc l) rounds
  if is_omitted f l then rest else elim (get_elem? lines l) [
    | none ↦ fault undefined
    | some line ↦ do more ← rest; ok (line ++ (10 ∷ more))
  ]

-- The bound `end - 1` is a `size_t`: an end of 0 makes it the largest one.
unfoldable pub last_line : AsmFunction → ℕ
last_line f = if f.end == 0 then 18446744073709551615 else f.end - 1

unfoldable pub function_code : List Bytes → AsmFunction → Outcome Bytes
unfolding function_lines last_line
function_code lines f = function_lines lines f f.begin (last_line f - f.begin)

-- The file of a function; `file` is the name of the listing.
unfoldable pub function_text : Boost → AsmGenerator → Bytes → AsmFunction → Outcome Bytes
unfolding function_code
function_text boost g file f = do
  code ← function_code g.extractor.lines_of_file f
  let named = boost.replace_all caption (codes "%f") file
  let title = boost.replace_all named (codes "%s") (codes "[Snippet: " ++ (f.name ++ codes "]"))
  ok (
      (if g.skip_source_caption then [] else title ++ codes "\n")
      ++ (codes "[source,asm"
          ++ ((if g.line_numbers then codes ",linenums" else [])
              ++ (codes ",indent="
                  ++ (to_string g.indent_level
                      ++ (codes "]\n" ++ (codes "----\n" ++ (code ++ codes "----\n"))))))))

-- The suffix of the file of a function: a dot and the name that was assigned.
unfoldable pub file_suffix : AsmFunction → Bytes
file_suffix f = b'.' ∷ f.assigned_name

-- The loop over the functions, where `opens` tells which files can be opened for writing and `base`
-- is the path of the listing within the sub directory: what comes back, and the files in the order
-- of their writing. A file that cannot be opened ends the loop.
unfoldable pub function_files :
    Boost
    → (Bytes → Bool)
    → AsmGenerator
    → Bytes
    → Bytes
    → List AsmFunction
    → Outcome (Bool × List (Bytes × Bytes))
unfolding function_text file_suffix
function_files boost opens g base file [] = ok (true, [])
function_files boost opens g base file (f ∷ fs) = do
  let others = function_files boost opens g base file fs
  let name = base ++ file_suffix f
  if opens name
      then (do
        text ← function_text boost g file f
        (done, rest) ← others
        ok (done, (name, text) ∷ rest))
      else ok (false, [])

-- Whether the files can go where they belong; `there` tells whether the sub directory exists or can
-- be made.
abbrev pub has_place : Bool → AsmGenerator → Bool
has_place there g = is_empty g.sub_directory_name || there

-- `generate()`. That the list of the functions cannot be written is no failure.
unfoldable pub asm_generate :
    Boost
    → (Bytes → Option Bytes)
    → (Bytes → Bool)
    → Bool
    → Bytes
    → Bytes
    → AsmGenerator
    → Outcome (Bool × List (Bytes × Bytes))
unfolding function_entries function_files
asm_generate boost files opens there base file g = do
  (parsed, opened) ← asm_parse files g.extractor
  let listed =
      if opens g.output_file_path
      then (g.output_file_path, function_entries parsed.functions) ∷ []
      else []
  if opened && has_place there g
      then (do
        (done, texts) ←
            function_files boost opens (record g { extractor = parsed }) base file parsed.functions
        ok (done, listed ++ texts))
      else ok (false, [])
