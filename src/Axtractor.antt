-- ===== src/Axtractor.antt =====
-- extract/axtractor.cc: the program `axtractor`. The command line is read by Lyra, a library: what
-- it stores is a parameter.
use extractor.Base.{
  ◌≡◌, ◌∙◌, refl, Bool, true, false, not, Option, none, some, List, [], Bytes, is_empty,
  if◌then◌else◌, Outcome, ok, ◌>>=◌,
}
use extractor.Boost.{Boost}
use extractor.Asm.{asm_parse, construct}
use extractor.Asm.Generator.{AsmGenerator, construct_generator, asm_generate}

-- The local variables of `main` that the command line fills and that are read.
pub record AsmOptions : Type 0 where
  pub show_help : Bool
  pub show_line_numbers : Bool
  pub output_file_path : Bytes
  pub source_file : Bytes

-- `outputFilePath(path)`
unfoldable pub set_output_path : Bytes → AsmGenerator → AsmGenerator
set_output_path path g = record g { output_file_path = path }

-- `lineNumbers(enable)`
unfoldable pub set_line_numbers : Bool → AsmGenerator → AsmGenerator
set_line_numbers enable g = record g { line_numbers = enable }

-- The settings; the option for line numbers only turns them on.
unfoldable pub set_up : AsmOptions → AsmGenerator → AsmGenerator
unfolding set_output_path set_line_numbers
set_up o g =
    let h = if not (is_empty o.output_file_path) then set_output_path o.output_file_path g else g in
    if o.show_line_numbers then set_line_numbers true h else h

extractor-if :
    (b : Bool) (g h : AsmGenerator)
    → g.extractor ≡ h.extractor
    → (if b then g else h).extractor ≡ h.extractor
extractor-if true g h same = same
extractor-if false g h same = refl

-- The settings leave the extractor as it is.
set_up-extractor : (o : AsmOptions) (g : AsmGenerator) → (set_up o g).extractor ≡ g.extractor
unfolding set_up set_output_path set_line_numbers
set_up-extractor o g =
    let h = if not (is_empty o.output_file_path) then set_output_path o.output_file_path g else g in
    extractor-if o.show_line_numbers (set_line_numbers true h) h refl
    ∙ extractor-if (not (is_empty o.output_file_path)) (set_output_path o.output_file_path g) g refl

module _ (boost : Boost) (files : Bytes → Option Bytes) (opens : Bytes → Bool) (there : Bool)
    (base output_path : Bytes → Bytes) where
  unfoldable pub generator_for : AsmOptions → AsmGenerator
  unfolding set_up construct_generator
  generator_for o = set_up o (construct_generator o.source_file (output_path o.source_file))

  -- What follows the check of the options: the result of `generate` is dropped.
  unfoldable pub write_listing : AsmOptions → Outcome (Bool × List (Bytes × Bytes))
  unfolding generator_for asm_generate
  write_listing o = do
    (done, texts) ←
        asm_generate boost files opens there (base o.source_file) o.source_file (generator_for o)
    ok (true, texts)

  -- `main`: whether the program ends with success, and the files it has written.
  unfoldable pub asm_main : Option AsmOptions → Outcome (Bool × List (Bytes × Bytes))
  unfolding write_listing
  asm_main none = ok (false, [])
  asm_main (some o) =
      if o.show_help
      then ok (true, [])
      else (if is_empty o.source_file then ok (false, []) else write_listing o)

  generator_for-extractor : (o : AsmOptions) → (generator_for o).extractor ≡ construct o.source_file
  unfolding generator_for construct_generator
  generator_for-extractor o =
      set_up-extractor o (construct_generator o.source_file (output_path o.source_file))

  asm_generate_unread :
      (g : AsmGenerator) (path : Bytes)
      → g.extractor ≡ construct path
      → files path ≡ none
      → asm_generate boost files opens there (base path) path g ≡ ok (false, [])
  unfolding asm_generate asm_parse
  asm_generate_unread g path same unread = rw (same, unread, asm_generate, asm_parse) refl

  -- Where the listing cannot be read, the program has written nothing and ends with success.
  pub asm_main_unread :
      (o : AsmOptions)
      → o.show_help ≡ false
      → is_empty o.source_file ≡ false
      → files o.source_file ≡ none
      → asm_main (some o) ≡ ok (true, [])
  unfolding asm_main
  asm_main_unread o shown given unread =
      rw (shown, given, asm_main, write_listing)
        (rw (asm_generate_unread (generator_for o) o.source_file (generator_for-extractor o) unread)
          refl)
