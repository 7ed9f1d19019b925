-- ===== src/Extractor/Read.antt =====
-- extract/cppextractor.cc: the reader of the text form of snippets.
pub mod RoundTrip
pub mod Whole
pub mod Endless
use extractor.Base.{
  ℕ, zero, suc, Bool, true, false, not, ◌&&◌, List, [], ◌∷◌, ◌++◌, Option, none, some, Bytes,
  if◌then◌else◌, is_empty, bytes_eq, codes,
}
use extractor.Streams.Input.{InStream, at, read_word, read_pair, read_vector, read_string_set}
use extractor.Extractor.{Snippet}
use extractor.Extractor.Parse.{getlines}
use extractor.Util.{find}

-- `CppExtractor::Snippet{}`
abbrev pub empty_snippet : Snippet
empty_snippet = record { line_spans = []; name = []; excludes = []; text_if_excluded = [] }

-- The parts of `operator>>`, the last first. Each takes what was just read; `s` is what the caller
-- keeps where the text is no snippet, and `snippet` is the local variable.
unfoldable pub read_close : Snippet → Snippet → Bytes × InStream → Option (Snippet × InStream)
read_close s snippet (token, input) =
    if bytes_eq token (codes "]") then some (snippet, input) else some (s, input)

-- `in >> excludes`
unfoldable pub read_excludes :
    Snippet → Snippet → Bytes → Option (List Bytes × InStream) → Option (Snippet × InStream)
unfolding read_word read_close
read_excludes s snippet token none = none
read_excludes s snippet token (some (excludes, input)) =
    read_close s (record snippet { excludes = excludes }) (read_word token input)

-- The word `exclude`
unfoldable pub read_exclude_word :
    ℕ → Snippet → Snippet → Bytes × InStream → Option (Snippet × InStream)
unfolding read_string_set read_excludes
read_exclude_word fuel s snippet (token, input) = elim (bytes_eq token (codes "exclude")) [
  | false ↦ some (s, input)
  | true ↦ read_excludes s snippet token (read_string_set fuel [] input)
]

-- `in >> lineSpans`
unfoldable pub read_spans :
    ℕ → Snippet → Bytes → Option (List (ℕ × ℕ) × InStream) → Option (Snippet × InStream)
unfolding read_word read_exclude_word
read_spans fuel s name none = none
read_spans fuel s name (some ([], input)) = some (s, input)
read_spans fuel s name (some (x ∷ xs, input)) =
    let snippet = record empty_snippet { name = name; line_spans = x ∷ xs } in
    read_exclude_word fuel s snippet (read_word name input)

-- The name
unfoldable pub read_name : ℕ → Snippet → Bytes × InStream → Option (Snippet × InStream)
unfolding read_pair read_vector read_spans
read_name fuel s ([], input) = some (s, input)
read_name fuel s (c ∷ token, input) =
    read_spans fuel s (c ∷ token) (read_vector read_pair (0, 0) fuel [] input)

-- The opening bracket
unfoldable pub read_open : ℕ → Snippet → Bytes × InStream → Option (Snippet × InStream)
unfolding read_word read_name
read_open fuel s (token, input) = elim (bytes_eq token (codes "[")) [
  | false ↦ some (s, input)
  | true ↦ read_name fuel s (read_word token input)
]

-- The word `Snippet`
unfoldable pub read_snippet_word : ℕ → Snippet → Bytes × InStream → Option (Snippet × InStream)
unfolding read_word read_open
read_snippet_word fuel s (token, input) = elim (bytes_eq token (codes "Snippet")) [
  | false ↦ some (s, input)
  | true ↦ read_open fuel s (read_word token input)
]

-- `operator>>` of a snippet on fuel for each of its loops; `none` means that the fuel ran out.
unfoldable pub read_snippet : ℕ → Snippet → InStream → Option (Snippet × InStream)
unfolding read_word read_snippet_word
read_snippet fuel s input =
    read_snippet_word fuel (record s { line_spans = [] }) (read_word [] input)

-- `Snippet::operator bool`
unfoldable pub has_spans : Snippet → Bool
has_spans s = not (is_empty s.line_spans)

-- `isSnippet(line)` without the full test
unfoldable pub is_snippet_line : Bytes → Bool
unfolding find
is_snippet_line line = elim (find line (codes "Snippet") 0) [ some p ↦ true | none ↦ false ]

-- `isSnippet(path, fullTest)` over the lines of the file
unfoldable pub are_snippet_lines : Bool → List Bytes → Bool
unfolding is_snippet_line
are_snippet_lines full_test [] = true
are_snippet_lines full_test (line ∷ lines) =
    let others = are_snippet_lines full_test lines in
    if is_empty line
    then others
    else if not (is_snippet_line line)
    then false
    else if not full_test
    then true
    else others

unfoldable pub is_snippet_file : Bool → Option Bytes → Bool
unfolding are_snippet_lines getlines
is_snippet_file full_test none = false
is_snippet_file full_test (some text) = are_snippet_lines full_test (getlines text)

-- The loop of `snippets(path)`
unfoldable pub snippets_loop : ℕ → List Snippet → InStream → Option (List Snippet)
unfolding read_snippet has_spans
snippets_loop zero snippets input = none
snippets_loop (suc fuel) snippets input = elim input.eof [
  | true ↦ some snippets
  | false ↦ elim (read_snippet fuel empty_snippet input) [
    | none ↦ none
    | some (s, in1) ↦ snippets_loop fuel (if has_spans s then snippets ++ s ∷ [] else snippets) in1
  ]
]

-- `snippets(path)`
unfoldable pub read_snippets : ℕ → Option Bytes → Option (List Snippet)
unfolding is_snippet_file snippets_loop
read_snippets fuel none = some []
read_snippets fuel (some text) =
    if not (is_snippet_file false (some text)) then some [] else snippets_loop fuel [] (at text)
