-- ===== src/Asm/Files.antt =====
-- extract/asciidocasmgenerator.cc: `generate` on what `AsmExtractor::parse` stores.
use extractor.Base.{
  false, Bool-cases, inl, inr, ok, if◌then◌else◌, ◌∙◌, ◌≡◌, refl, ap, Bool, true, some, Option,
  List, [], ◌∷◌, ◌++◌, arith, Bytes, length, All, Returns, Returns-bind, Returns-ok, map,
}
use extractor.Boost.{Boost}
use extractor.Extractor.Parse.{getlines}
use extractor.Asm.{AsmFunction, AsmExtractor, construct, asm_parse}
use extractor.Asm.Safe.{IsListed, IsParsed, asm_parse-Returns}
use extractor.Asm.Generator.{
  AsmGenerator, file_suffix, function_text, function_files, asm_generate, has_place,
}
use extractor.Asm.Code.{function_code_lem}

module _ (boost : Boost) (opens : Bytes → Bool) (g : AsmGenerator) (base file : Bytes) where
  function_text-Returns :
      (f : AsmFunction)
      → IsListed f (length g.extractor.lines_of_file)
      → Returns (λ _. Unit {0}) (function_text boost g file f)
  unfolding function_text
  function_text-Returns f h =
      let code =
        function_code_lem g.extractor.lines_of_file f (omega (arith, h.first, h.ordered)) h.ordered
          h.closed in
      rw (code, function_text) tt

  -- The files that were written are those of the functions, in their order, as long as they open.
  function_files-Returns :
      (fs : List AsmFunction)
      → All (λ f. IsListed f (length g.extractor.lines_of_file)) fs
      → ((name : Bytes) → opens name ≡ true)
      → Returns
          (λ r. (r.0 ≡ true) × (map (λ t. t.0) r.1 ≡ map (λ f. base ++ file_suffix f) fs))
          (function_files boost opens g base file fs)
  unfolding function_files
  function_files-Returns [] h writable = (refl, refl)
  function_files-Returns (f ∷ fs) h writable =
      rw (writable (base ++ file_suffix f), function_files)
        (Returns-bind _ _ (function_text boost g file f) _ (function_text-Returns f h.0) λ text _.
          Returns-bind _ _ (function_files boost opens g base file fs) _
            (function_files-Returns fs h.1 writable)
            λ r hr. (hr.0, ap (λ names. (base ++ file_suffix f) ∷ names) hr.1))

module _ (boost : Boost) (files : Bytes → Option Bytes) (opens : Bytes → Bool) (there : Bool)
    (g : AsmGenerator) (base file path content : Bytes) where
  -- The names of the files that `generate` writes for a listing
  abbrev pub written_names : AsmExtractor → List Bytes
  written_names parsed =
      if has_place there g
      then g.output_file_path ∷ map (λ f. base ++ file_suffix f) parsed.functions
      else []

  generate_unplaced :
      {parsed : AsmExtractor} {opened : Bool}
      → has_place there g ≡ false
      → asm_parse files g.extractor ≡ ok (parsed, opened)
      → asm_generate boost files opens there base file g ≡ ok (false, [])
  unfolding asm_generate
  generate_unplaced {opened = true} nowhere parses = rw (parses, asm_generate, nowhere) refl
  generate_unplaced {opened = false} nowhere parses = rw (parses, asm_generate) refl

  -- For every listing that can be read, where every file can be opened, `generate` returns, and it
  -- returns true exactly where no sub directory is named or it is there or can be made; then it has
  -- written the list of the functions and one file for each of them in their order, and nothing
  -- otherwise.
  pub asm_generate-Returns :
      g.extractor ≡ construct path
      → files path ≡ some content
      → ((name : Bytes) → opens name ≡ true)
      → Returns
          (λ r.
            (r.0 ≡ has_place there g)
            × Returns
                (λ p. map (λ t. t.0) r.1 ≡ written_names p.0)
                (asm_parse files (construct path)))
          (asm_generate boost files opens there base file g)
  unfolding asm_generate
  asm_generate-Returns fresh read writable =
      let (parsed, parses, (opened, counted, listed)) =
        Returns-ok (IsParsed (length (getlines content))) _
          (asm_parse-Returns files path content read) in
      elim (Bool-cases (has_place there g)) [
        | inl place ↦
            rw (fresh, parses, opened, asm_generate, place, writable g.output_file_path)
              (Returns-bind _ _
                (function_files boost opens (record g { extractor = parsed.0 }) base file
                  parsed.0.functions)
                _
                (function_files-Returns boost opens (record g { extractor = parsed.0 }) base file
                  parsed.0.functions (rw counted listed) writable)
                λ r hr. (hr.0, ap (λ names. g.output_file_path ∷ names) hr.1))
        | inr nowhere ↦
            rw (generate_unplaced nowhere (ap (asm_parse files) fresh ∙ parses), parses, nowhere)
              (refl, refl)
      ]
