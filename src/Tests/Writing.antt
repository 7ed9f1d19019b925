-- ===== src/Tests/Writing.antt =====
-- A run of the whole generator, and its theorem at it.
use extractor.Base.{
  ◌≡◌, refl, true, false, [], ◌∷◌, codes, Outcome, ok, map, Returns, bytes_eq, Bool,
}
use extractor.Extractor.{Extractor}
use extractor.Extractor.Induction.{IsFresh}
use extractor.Generator.{Generator, construct_generator}
use extractor.Generator.Run.{System, Paths, parse_source, generate}
use extractor.Generator.Writes.{outline, generate-Returns}
use extractor.Tests.Plain.{plain, plain_parse}
use extractor.Tests.Parsing.{nested_file, fresh-IsFresh, nested}
use extractor.Tests.Generating.{unformatted}

abbrev untouched : Generator
untouched = construct_generator (codes "a.cc") (codes "a.extractor")

abbrev pub files : System
files = record { content = nested_file; opens = λ path. true; has_directory = true }

abbrev pub places : Paths
places = record {
  formatted = codes "a.cc.tmp";
  file_name = codes "a.cc";
  base = codes ".extractor/a.cc";
}

abbrev pub parsed_source : Extractor
parsed_source = record nested { path = codes "a.cc.tmp" }

-- `parse_source` with all that it computes with.
source_run : Generator → Outcome (Extractor × Bool)
unfolding plain_parse parse_source construct_generator bytes_eq
source_run = parse_source plain unformatted files places

parse_source-nested :
    parse_source plain unformatted files places untouched ≡ ok (parsed_source, true)
unfolding source_run
parse_source-nested = refl

untouched-IsFresh : IsFresh untouched.extractor
unfolding construct_generator
untouched-IsFresh = fresh-IsFresh

generate-Returns_example :
    Returns
      (λ r.
        (r.0 ≡ true)
        × (r.1 ≡ record untouched { extractor = parsed_source })
        × (map outline r.2
            ≡ (true, codes "a.cc.tmp")
              ∷ (false, codes "a.cc.tmp")
              ∷ (true, codes "a.extractor")
              ∷ (true, codes ".extractor/a.cc.a")
              ∷ (true, codes ".extractor/a.cc.all")
              ∷ (true, codes ".extractor/a.cc.b")
              ∷ []))
      (generate plain unformatted files places untouched)
unfolding construct_generator
generate-Returns_example =
    generate-Returns plain unformatted files places (λ path. refl) untouched refl untouched-IsFresh
      parse_source-nested
