-- ===== src/Tests/Running.antt =====
-- A run of the program `extractor`, and its theorems at it.
use extractor.Base.{
  ◌≡◌, refl, true, false, [], ◌∷◌, some, Bytes, codes, Outcome, ok, pos, Returns, bytes_eq, Bool,
}
use extractor.Extractor.{Extractor, activate_lua}
use extractor.Generator.{construct_generator, set_language}
use extractor.Generator.Run.{parse_source}
use extractor.Program.{
  Options, MimeType, World, check_mime_type_for_language, is_option, configure, has_source, main,
}
use extractor.Program.Exits.{generator_of, main-Returns}
use extractor.Tests.Plain.{plain, plain_parse}
use extractor.Tests.Generating.{unformatted}
use extractor.Tests.Writing.{files, places, parsed_source}

abbrev given : Options
given = record {
  parse_only = false;
  enable_snippet_definitions = false;
  skip_callouts = false;
  print_multi_snippet_delimiter = true;
  skip_exclude_marker = false;
  skip_line_highlighting = false;
  enable_empty_lines = false;
  enable_block_comments = false;
  include_omitted = false;
  show_line_numbers = true;
  show_help = false;
  language = codes "cpp";
  astyle_options = codes "-A2" ∷ [];
  output_file_path = [];
  extractor_sub_dir = [];
  source_file = codes "a.cc";
  indent = pos 2;
}

abbrev mime : Bytes → MimeType
mime sub = record { type = codes "text"; tree = []; sub_type = sub; suffix = []; parameters = [] }

abbrev world : World
world = record {
  command_line = some given;
  exists = λ path. true;
  mime_type = λ path. some (mime (codes "x-c++"));
  extension = λ path. codes ".cc";
  output_path = λ path. codes "a.extractor";
  system = files;
  paths = λ g. places;
}

-- The program with all that the theorem asks of it.
program_run : World → Outcome (Extractor × Bool)
unfolding plain_parse parse_source configure construct_generator set_language activate_lua bytes_eq
    check_mime_type_for_language has_source is_option
program_run w =
    parse_source plain unformatted files places
      (generator_of plain unformatted w given (codes "cpp"))

parse-given :
    parse_source plain unformatted files places
      (generator_of plain unformatted world given (codes "cpp"))
    ≡ ok (parsed_source, true)
unfolding program_run
parse-given = refl

source_is_there : has_source plain unformatted world given ≡ true
unfolding program_run
source_is_there = refl

language_is_kept :
    check_mime_type_for_language (some (mime (codes "x-c++"))) (codes ".cc") (codes "cpp")
    ≡ ok (codes "cpp")
unfolding program_run
language_is_kept = refl

main-Returns_example : Returns (λ r. r.success ≡ true) (main plain unformatted world)
main-Returns_example =
    main-Returns plain unformatted world given refl refl refl source_is_there language_is_kept
      (λ path. refl) refl parse-given
