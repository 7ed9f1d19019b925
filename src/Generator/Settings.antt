-- ===== src/Generator/Settings.antt =====
-- extract/asciidocsnippetfilegenerator.cc: the settings of the generator. Those of the extractor
-- and of the formatter are handed on.
use extractor.Base.{Bool, Bytes, ℤ}
use extractor.Astyle.{set_options}
use extractor.Extractor.Settings.{
  set_highlight_lines, set_skip_block_comments, set_skip_snippet_definitions,
  set_include_omitted_lines, set_skip_empty_lines,
}
use extractor.Generator.{Generator}

unfoldable pub astyle_options : Bytes → Generator → Generator
unfolding set_options
astyle_options options g = record g { astyle = set_options options g.astyle }

unfoldable pub sub_directory : Bytes → Generator → Generator
sub_directory name g = record g { sub_directory_name = name }

unfoldable pub indent : ℤ → Generator → Generator
indent level g = record g { indent_level = level }

unfoldable pub highlight : Bool → Generator → Generator
unfolding set_highlight_lines
highlight on g = record g { extractor = set_highlight_lines on g.extractor }

unfoldable pub skip_empty : Bool → Generator → Generator
unfolding set_skip_empty_lines
skip_empty skip g = record g { extractor = set_skip_empty_lines skip g.extractor }

unfoldable pub skip_comments : Bool → Generator → Generator
unfolding set_skip_block_comments
skip_comments skip g = record g { extractor = set_skip_block_comments skip g.extractor }

unfoldable pub skip_definitions : Bool → Generator → Generator
unfolding set_skip_snippet_definitions
skip_definitions skip g = record g { extractor = set_skip_snippet_definitions skip g.extractor }

unfoldable pub skip_callouts_of : Bool → Generator → Generator
skip_callouts_of skip g = record g { skip_callouts = skip }

unfoldable pub include_omitted : Bool → Generator → Generator
unfolding set_include_omitted_lines
include_omitted include g = record g { extractor = set_include_omitted_lines include g.extractor }

unfoldable pub exclude_marker_shown : Bool → Generator → Generator
exclude_marker_shown on g = record g { print_exclude_marker = on }

unfoldable pub output_path : Bytes → Generator → Generator
output_path path g = record g { output_file_path = path }

unfoldable pub number_lines : Bool → Generator → Generator
number_lines numbering g = record g { line_numbers = numbering }

unfoldable pub delimiter_shown : Bool → Generator → Generator
delimiter_shown print g = record g { print_multi_snippet_delimiter = print }

unfoldable pub multi_delimiter : Bytes → Generator → Generator
multi_delimiter delimiter g = record g { multi_snippet_delimiter = delimiter }

unfoldable pub set_exclude_marker : Bytes → Generator → Generator
set_exclude_marker marker g = record g { exclude_marker = marker }
