-- ===== src/Extractor/Print.antt =====
-- extract/cppextractor.cc: the text form of a snippet.
use extractor.Base.{[], ◌∷◌, ◌++◌, Bytes, codes, Dict}
use extractor.Streams.{print_list, print_pair}
use extractor.Extractor.{Snippet}

-- `operator<<` of a snippet
unfoldable pub print_snippet : Snippet → Bytes
unfolding print_list print_pair
print_snippet s =
    codes "Snippet [ "
    ++ (s.name
        ++ (codes " "
            ++ (print_list print_pair s.line_spans
                ++ (codes " "
                    ++ (codes "exclude " ++ (print_list (λ e. e) s.excludes ++ codes " ] "))))))

-- The list of the snippets, each followed by the end of a line.
unfoldable pub print_snippets : Dict Bytes Snippet → Bytes
unfolding print_snippet
print_snippets [] = []
print_snippets ((name, s) ∷ rest) = print_snippet s ++ (10 ∷ print_snippets rest)
