-- ===== src/Extractor/Settings.antt =====
-- extract/cppextractor.cc: the settings of the extractor.
use extractor.Base.{Bool}
use extractor.Extractor.{Extractor}

unfoldable pub set_highlight_lines : Bool → Extractor → Extractor
set_highlight_lines highlight e = record e { highlight_lines = highlight }

unfoldable pub set_skip_block_comments : Bool → Extractor → Extractor
set_skip_block_comments skip e = record e { skip_block_comments = skip }

unfoldable pub set_skip_snippet_definitions : Bool → Extractor → Extractor
set_skip_snippet_definitions skip e = record e { skip_snippet_definitions = skip }

unfoldable pub set_include_omitted_lines : Bool → Extractor → Extractor
set_include_omitted_lines include e = record e { include_omitted_lines = include }

unfoldable pub set_skip_empty_lines : Bool → Extractor → Extractor
set_skip_empty_lines skip e = record e { skip_empty_lines = skip }
