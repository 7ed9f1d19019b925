-- ===== src/Generator/Text.antt =====
-- extract/asciidocsnippetfilegenerator.cc: what `generate` writes to the file of one snippet.
use extractor.Base.{
  ℕ, ◌+◌, ℤ, pos, negsuc, Bool, true, false, not, ◌||◌, none, some, List, [], ◌∷◌, ◌++◌, Bytes,
  if◌then◌else◌, lookup, codes, to_string, bytes_eq, Outcome, ok, fault, out_of_range, ◌>>=◌,
  nat_key,
}
use extractor.Boost.{Boost}
use extractor.Astyle.{formatted_c_text}
use extractor.Extractor.{Extractor, Snippet}
use extractor.Generator.{Generator}
use extractor.Generator.Body.{body}

-- `operator<<` of an `int`
unfoldable pub int_to_string : ℤ → Bytes
int_to_string (pos n) = to_string n
int_to_string (negsuc n) = b'-' ∷ to_string (n + 1)

-- The line numbers, `,` between them; the flag is `isFirstElement`.
unfoldable pub number_list : Bool → List ℕ → Bytes
number_list first [] = []
number_list first (n ∷ ns) =
    (if first then [] else codes ",") ++ (to_string n ++ number_list false ns)

-- `,highlight="…"`, where a line is highlighted
unfoldable pub highlight_attribute : List ℕ → Bytes
unfolding number_list
highlight_attribute [] = []
highlight_attribute (n ∷ ns) = codes ",highlight=\"" ++ (number_list true (n ∷ ns) ++ codes "\"")

-- The list of the callouts, numbered from `number`; `at` throws where a line has none.
unfoldable pub callout_list : Extractor → ℕ → List ℕ → Outcome Bytes
callout_list e number [] = ok []
callout_list e number (n ∷ ns) = elim (lookup n e.callouts) [
  | none ↦ fault out_of_range
  | some co ↦ do
    rest ← callout_list e (number + 1) ns
    ok (codes "<" ++ (to_string number ++ (codes "> " ++ (co.text ++ 10 ∷ rest))))
]

is_plain : Generator → Bool
is_plain g = bytes_eq g.language (codes "lua") || bytes_eq g.language (codes "none")

module _ (boost : Boost) (astyle_main : Bytes → Bytes → Bytes) where
  -- The caption; `file` is `originalFilePath.filename()`.
  unfoldable pub caption_line : Generator → Bytes → Snippet → Bytes
  caption_line g file s =
      let named = boost.replace_all g.caption (codes "%f") file in
      let titled = boost.replace_all named (codes "%s") (
        if not (bytes_eq s.name (codes "all"))
        then codes "[Snippet: " ++ (s.name ++ codes "]")
        else []) in
      boost.replace_all titled (codes "%o")
        (if g.extractor.has_omitted_lines then codes "(einige Zeilen nicht dargestellt)" else [])

  -- The file of a snippet.
  unfoldable pub snippet_text : Generator → Bytes → Snippet → Outcome Bytes
  unfolding caption_line highlight_attribute callout_list is_plain int_to_string
  snippet_text g file s = do
    b ← body g s
    callouts ← if g.skip_callouts then ok [] else callout_list g.extractor 1 b.callout_line_numbers
    let caption = if g.skip_source_caption then [] else caption_line g file s ++ codes "\n"
    let numbered = if g.line_numbers then codes ",linenums" else []
    let code =
        if is_plain g then b.code_lines else formatted_c_text astyle_main g.astyle b.code_lines
    ok (
        caption
        ++ (codes "[source,"
            ++ (g.language
                ++ (numbered
                    ++ (highlight_attribute b.highlighted_snippet_lines
                        ++ (codes ",indent="
                            ++ (int_to_string g.indent_level
                                ++ (codes "]\n----\n"
                                    ++ (code ++ (codes "----\n" ++ callouts))))))))))
