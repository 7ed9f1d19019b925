-- ===== src/Tests/Nesting.antt =====
-- The theorem on nested snippets at a concrete file.
use extractor.Base.{Option, some, [], ◌∷◌, Bytes, codes, bytes_key}
use extractor.Extractor.{Extractor}
use extractor.Extractor.Nesting.{Source}
use extractor.Tests.Parsing.{fresh}

abbrev tree : Source
tree =
    Source.snippet (codes "//[ a") (codes "a")
      (Source.text (codes "x;") (
        Source.snippet (codes "//[ b") (codes "b") (Source.text (codes "x;") Source.over)
          (codes "//]") Source.over))
      (codes "//]")
      (Source.snippet (codes "//[ a") (codes "a") (Source.text (codes "x;") Source.over)
        (codes "//]") Source.over)

abbrev tree_file : Bytes → Option Bytes
tree_file path = some (codes "//[ a\nx;\n//[ b\nx;\n//]\n//]\n//[ a\nx;\n//]\n")

abbrev tree_stored : Extractor
tree_stored = record fresh {
  file_contents = codes "x;" ∷ codes "x;" ∷ codes "x;" ∷ [];
  snippets =
      (
        codes "a",
        record {
          line_spans = (0, 2) ∷ (2, 3) ∷ [];
          name = codes "a";
          excludes = [];
          text_if_excluded = [];
        },
      )
      ∷ (
        codes "all",
        record {
          line_spans = (0, 3) ∷ [];
          name = codes "all";
          excludes = [];
          text_if_excluded = [];
        },
      )
      ∷ (
        codes "b",
        record { line_spans = (1, 2) ∷ []; name = codes "b"; excludes = []; text_if_excluded = [] },
      )
      ∷ [];
}

abbrev tree_text : Bytes
tree_text = codes "//[ a\nx;\n//[ b\nx;\n//]\n//]\n//[ a\nx;\n//]\n"
