-- ===== src/Tests/Listing.antt =====
-- Runs over an assembler listing, and the theorems at it.
use extractor.Base.{
  ◌≡◌, refl, true, false, List, [], ◌∷◌, ◌++◌, Option, none, some, Bytes, codes, Outcome, ok, some,
  none, Returns, Bool, map, is_space, is_digit, length,
}
use extractor.Regex.{search_regex, is_found}
use extractor.Extractor.Parse.{getlines}
use extractor.Asm.{
  AsmFunction, AsmExtractor, construct, asm_parse, new_function, whole_file, add_all,
}
use extractor.Asm.Patterns.{
  is_word, is_symbol, function_start_regex, function_end_regex, function_name_regex,
}
use extractor.Asm.Generator.{
  AsmGenerator, construct_generator, asm_generate, function_code, file_suffix,
}
use extractor.Asm.Code.{function_code-between, whole_code}
use extractor.Asm.Nesting.{Closes, IsText, Names, Inside, state}
use extractor.Asm.Listing.{Listing, asm_parse-Listing}
use extractor.Asm.Files.{asm_generate-Returns}
use extractor.Axtractor.{AsmOptions, asm_main, asm_main_unread}
use extractor.Tests.Plain.{plain}

abbrev sample : Bytes
sample = codes ".text\n .type f, @function\nf:\n;= g\n ret\n .size f, .-f\n"

abbrev files : Bytes → Option Bytes
files path = some sample

abbrev sample_lines : List Bytes
sample_lines =
    codes ".text"
    ∷ codes " .type f, @function"
    ∷ codes "f:"
    ∷ codes ";= g"
    ∷ codes " ret"
    ∷ codes " .size f, .-f"
    ∷ []

abbrev parsed_function : AsmFunction
parsed_function = record (new_function 2 (codes "f")) {
  end = 6;
  assigned_name = codes "g";
  omitted_lines = 4 ∷ [];
}

-- `asm_parse` with all that it computes with.
asm_run : (Bytes → Option Bytes) → AsmExtractor → Outcome (AsmExtractor × Bool)
unfolding asm_parse search_regex is_found function_start_regex function_end_regex
    function_name_regex is_word is_symbol is_space is_digit getlines
asm_run = asm_parse

asm_parse-sample :
    asm_parse files (construct (codes "a.s"))
    ≡ ok (state (codes "a.s") sample_lines (parsed_function ∷ whole_file 6 ∷ []) [], true)
unfolding asm_run
asm_parse-sample = refl

no_start-text : search_regex function_start_regex (codes ".text") ≡ none
unfolding asm_run
no_start-text = refl

start-f :
    search_regex function_start_regex (codes " .type f, @function")
    ≡ some (record { first = 0; second = 19; marks = 7 ∷ 8 ∷ [] })
unfolding asm_run
start-f = refl

label : IsText (codes "f:")
unfolding asm_run
label = record { no_start = refl; no_end = refl; no_name = refl }

naming_line : Names (codes ";= g") (record { first = 0; second = 4; marks = 3 ∷ 4 ∷ [] })
unfolding asm_run
naming_line = record { no_start = refl; no_end = refl; named = refl }

ret : IsText (codes " ret")
unfolding asm_run
ret = record { no_start = refl; no_end = refl; no_name = refl }

closing_line : Closes (codes " .size f, .-f")
unfolding asm_run
closing_line = record { no_start = refl; ends = refl }

sample-Listing : Listing 0 sample_lines (parsed_function ∷ [])
sample-Listing = Listing.text no_start-text (
    Listing.function {k = 5} {inner = codes "f:" ∷ codes ";= g" ∷ codes " ret" ∷ []} start-f
      (Inside.text label (Inside.naming naming_line (Inside.text ret Inside.over))) closing_line
      refl Listing.over)

getlines-sample : getlines sample ≡ sample_lines
unfolding getlines
getlines-sample = refl

asm_parse-Listing_example :
    asm_parse files (construct (codes "a.s"))
    ≡ ok (
      add_all
          (length (getlines sample))
          (state (codes "a.s") (getlines sample) (parsed_function ∷ []) []),
      true,
    )
asm_parse-Listing_example =
    asm_parse-Listing files (codes "a.s") sample refl (rw getlines-sample sample-Listing)

abbrev asm_generator : AsmGenerator
asm_generator = construct_generator (codes "a.s") (codes "a.axtractor")

asm_generate-Returns_example :
    Returns
      (λ r.
        (r.0 ≡ true)
        × Returns
            (λ p.
              map (λ t. t.0) r.1
              ≡ codes "a.axtractor"
                ∷ map (λ f. codes ".extractor/a.s" ++ file_suffix f) p.0.functions)
            (asm_parse files (construct (codes "a.s"))))
      (asm_generate plain files
        (λ name. true)
        true
        (codes ".extractor/a.s")
        (codes "a.s")
        asm_generator)
unfolding construct_generator
asm_generate-Returns_example =
    asm_generate-Returns plain files (λ name. true) true asm_generator (codes ".extractor/a.s")
      (codes "a.s") (codes "a.s") sample refl refl λ name. refl

function_code-between_example : function_code sample_lines parsed_function ≡ ok (codes "f:\n ret\n")
function_code-between_example =
    function_code-between (codes ".text" ∷ []) (codes "f:" ∷ codes ";= g" ∷ codes " ret" ∷ []) []
      (codes " .type f, @function") (codes " .size f, .-f") parsed_function refl refl

whole_code_example :
    function_code sample_lines (whole_file 6)
    ≡ ok (codes " .type f, @function\nf:\n;= g\n ret\n .size f, .-f\n")
whole_code_example = whole_code sample_lines

abbrev asm_options : AsmOptions
asm_options = record {
  show_help = false;
  show_line_numbers = true;
  output_file_path = [];
  source_file = codes "b.s";
}

asm_main_unread_example :
    asm_main plain
      (λ path. none)
      (λ path. true)
      true
      (λ path. path)
      (λ path. path)
      (some asm_options)
    ≡ ok (true, [])
asm_main_unread_example =
    asm_main_unread plain (λ path. none) (λ path. true) true (λ path. path) (λ path. path)
      asm_options refl refl refl
