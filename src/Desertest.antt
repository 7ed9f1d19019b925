-- ===== src/Desertest.antt =====
-- extract/desertest.cc: the program `desertest`, which reads a list of snippets and prints it.
use extractor.Base.{ℕ, ◌≤◌, ◌≡◌, refl, Option, none, some, List, [], ◌∷◌, ◌++◌, Bytes, Dict, codes}
use extractor.Extractor.{Snippet}
use extractor.Extractor.Print.{print_snippet, print_snippets}
use extractor.Extractor.Read.{read_snippets}
use extractor.Extractor.Read.Whole.{
  AllReadable, reading_rounds, written, read_snippets-print_snippets,
}

unfoldable pub print_all : List Snippet → Bytes
unfolding print_snippet
print_all [] = []
print_all (s ∷ snippets) = print_snippet s ++ (10 ∷ print_all snippets)

-- `main` on fuel for the loops of the reader; `files` gives the content of each file that can be
-- opened.
unfoldable pub desertest_main : ℕ → (Bytes → Option Bytes) → Option Bytes
unfolding read_snippets print_all
desertest_main fuel files = elim (read_snippets fuel (files (codes "test.ccex"))) [
  | none ↦ none
  | some snippets ↦ some (print_all snippets)
]

print_all-written : (d : Dict Bytes Snippet) → print_all (written d) ≡ print_snippets d
unfolding print_all print_snippets print_snippet
print_all-written [] = refl
print_all-written ((name, s) ∷ d) = rw (print_all-written d) refl

-- Where the file holds the list that the generator writes, the program prints that file again, if
-- names and excludes are words that the reader does not take for brackets or commas, each snippet
-- has a span, its excludes ascend and the numbers fit a `size_t`; the fuel covers the rounds of the
-- reader.
pub desertest_main-print_snippets :
    (fuel : ℕ) (files : Bytes → Option Bytes) (d : Dict Bytes Snippet)
    → files (codes "test.ccex") ≡ some (print_snippets d)
    → reading_rounds d ≤ fuel
    → AllReadable d
    → desertest_main fuel files ≡ files (codes "test.ccex")
unfolding desertest_main
desertest_main-print_snippets fuel files d holds enough readable =
    rw (holds, desertest_main)
      (rw (read_snippets-print_snippets fuel d enough readable, desertest_main)
        (rw (print_all-written d) refl))
