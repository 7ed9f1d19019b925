-- ===== src/Generator/Run.antt =====
-- extract/asciidocsnippetfilegenerator.cc: `generate` as a whole, with what it does to the files.
-- The paths that `std::filesystem` computes are parameters.
use extractor.Base.{
  Bool, true, false, not, ◌&&◌, ◌||◌, Option, none, some, List, [], ◌∷◌, ◌++◌, Bytes, Dict, codes,
  bytes_eq, is_empty, if◌then◌else◌, Outcome, ok, ◌>>=◌,
}
use extractor.Boost.{Boost}
use extractor.Astyle.{formatted_c_text}
use extractor.Extractor.{Extractor, Snippet}
use extractor.Extractor.Parse.{parse}
use extractor.Extractor.Print.{print_snippets}
use extractor.Generator.{Generator}
use extractor.Generator.Text.{snippet_text}

-- What is done to the file system, in its order.
pub data Action : Type 0 where
  write : Bytes → Bytes → Action
  remove : Bytes → Action

-- The file system: the content of each file that can be read, the files that can be opened for
-- writing, and whether the sub directory is there or can be made.
pub record System : Type 0 where
  pub content : Bytes → Option Bytes
  pub opens : Bytes → Bool
  pub has_directory : Bool

-- The paths that belong to the source file: that of the formatted text, the name of the file, and
-- the place of the snippet files, which is the sub directory with the name of the file.
pub record Paths : Type 0 where
  pub formatted : Bytes
  pub file_name : Bytes
  pub base : Bytes

-- A write where the file can be opened.
unfoldable pub write_if_open : System → Bytes → Bytes → List Action
write_if_open y path text = if y.opens path then write path text ∷ [] else []

-- `std::string{istreambuf_iterator(original), …}`: a file that cannot be read is empty.
unfoldable pub read_all : System → Bytes → Bytes
read_all y path = elim (y.content path) [ none ↦ [] | some text ↦ text ]

-- The files after the formatted text was written.
unfoldable pub content_with : System → Bytes → Bytes → Bytes → Option Bytes
content_with y formatted text path =
    if y.opens formatted && bytes_eq path formatted then some text else y.content path

-- `(mLanguage == "none") || (mLanguage == "lua")`
unfoldable pub is_unformatted : Generator → Bool
is_unformatted g = bytes_eq g.language (codes "none") || bytes_eq g.language (codes "lua")

module _ (boost : Boost) (astyle_main : Bytes → Bytes → Bytes) (y : System) (paths : Paths) where
  abbrev pub snippet_path : Bytes → Bytes
  snippet_path name = paths.base ++ (b'.' ∷ name)

  -- The loop over the snippets: a file that cannot be opened ends it.
  unfoldable pub write_snippets : Generator → Dict Bytes Snippet → Outcome (Bool × List Action)
  unfolding snippet_text
  write_snippets g [] = ok (true, [])
  write_snippets g ((name, s) ∷ rest) = do
    let others = write_snippets g rest
    if y.opens (snippet_path s.name)
        then (do
          text ← snippet_text boost astyle_main g paths.file_name s
          (done, writes) ← others
          ok (done, write (snippet_path s.name) text ∷ writes))
        else ok (false, [])

  -- Behind the parse: the temporary file goes, then the list and the files of the snippets are
  -- written. That the list cannot be written is no failure.
  unfoldable pub write_all : Generator → Outcome (Bool × List Action)
  unfolding write_snippets print_snippets write_if_open
  write_all g = do
    let before =
        remove paths.formatted
        ∷ write_if_open y g.output_file_path (print_snippets g.extractor.snippets)
    if not (is_empty g.sub_directory_name) && not y.has_directory then ok (false, before) else (do
      (done, writes) ← write_snippets g g.extractor.snippets
      ok (done, before ++ writes))

  -- The text that goes to the temporary file.
  unfoldable pub formatted_text_of : Generator → Bytes → Bytes
  unfolding is_unformatted formatted_c_text
  formatted_text_of g text =
      if is_unformatted g then text else formatted_c_text astyle_main g.astyle text

  -- The parse of the formatted text, or of the file itself where the language has no formatter.
  unfoldable pub parse_source : Generator → Outcome (Extractor × Bool)
  unfolding read_all content_with formatted_text_of is_unformatted parse
  parse_source g =
      let path = g.extractor.path in
      parse boost (content_with y paths.formatted (formatted_text_of g (read_all y path)))
        (record g.extractor { path = if is_unformatted g then path else paths.formatted })

  -- What follows the parse.
  unfoldable pub after_source :
      Generator → List Action → Extractor → Bool → Outcome (Bool × Generator × List Action)
  unfolding write_all
  after_source g first parsed false = ok (false, record g { extractor = parsed }, first)
  after_source g first parsed true = do
    (done, actions) ← write_all (record g { extractor = parsed })
    ok (done, record g { extractor = parsed }, first ++ actions)

  -- `generate()`: what it returns, the generator afterwards, and what was done to the files.
  unfoldable pub generate : Generator → Outcome (Bool × Generator × List Action)
  unfolding read_all write_if_open formatted_text_of parse_source after_source
  generate g = do
    let text = formatted_text_of g (read_all y g.extractor.path)
    (parsed, parses) ← parse_source g
    after_source g (write_if_open y paths.formatted text) parsed parses
