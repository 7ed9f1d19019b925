-- ===== src/Generator.antt =====
-- extract/asciidocsnippetfilegenerator.h: the object that writes the snippet files.
pub mod Body
pub mod Text
pub mod Total
pub mod Lines
pub mod Settings
pub mod Run
pub mod Writes
use extractor.Base.{ℕ, ℤ, pos, Bool, true, false, Bytes, codes, bytes_eq, if◌then◌else◌}
use extractor.Astyle
use extractor.Astyle.{Astyle}
use extractor.Extractor.{Extractor, construct, activate_lua}

pub record Generator : Type 0 where
  pub extractor : Extractor
  pub astyle : Astyle
  pub sub_directory_name : Bytes
  pub language : Bytes
  pub indent_level : ℤ
  pub multi_snippet_delimiter : Bytes
  pub output_file_path : Bytes
  pub skip_callouts : Bool
  pub skip_source_caption : Bool
  pub print_exclude_marker : Bool
  pub line_numbers : Bool
  pub print_multi_snippet_delimiter : Bool
  pub exclude_marker : Bytes
  pub caption : Bytes

-- The constructor, with the initialisers of the members; the second path is the first one with
-- `.extractor` in place of its extension.
unfoldable pub construct_generator : Bytes → Bytes → Generator
construct_generator path output_file_path = record {
  extractor = construct path;
  astyle = Astyle.construct;
  sub_directory_name = codes ".extractor";
  language = codes "cpp";
  indent_level = pos 0;
  multi_snippet_delimiter = codes "\n// ... lines omitted ...\n\n";
  output_file_path = output_file_path;
  skip_callouts = false;
  skip_source_caption = false;
  print_exclude_marker = true;
  line_numbers = false;
  print_multi_snippet_delimiter = true;
  exclude_marker = codes "// ...\n";
  caption =
      codes
        ".Zeilen aus der Datei link:{srcbase}/{srcdir}/%f.html[`%f`,window=\"newwindows\"] %s %o";
}

-- `language(const std::string&)`
unfoldable pub set_language : Bytes → Generator → Generator
set_language language g =
    let h = record g { language = language; astyle = Astyle.set_language language g.astyle } in
    if bytes_eq language (codes "lua") then record h { extractor = activate_lua g.extractor } else h
