-- ===== src/Program.antt =====
-- extract/extractor.cc: the program `extractor`. The command line is read by Lyra, a library: what
-- it stores is a parameter, and so are the MIME type that libmagic tells and the questions to the
-- file system.
pub mod Exits
pub mod Language
use extractor.Base.{
  ℕ, ℤ, pos, negsuc, Bool, true, false, not, ◌&&◌, ◌||◌, Option, none, some, List, [], ◌∷◌, ◌++◌,
  Bytes, Dict, codes, bytes_eq, is_empty, any_of, ltb, ◌==◌, if◌then◌else◌, Outcome, ok, fault,
  undefined, ◌>>=◌,
}
use extractor.Boost.{Boost}
use extractor.Regex.{Item, lit, any_text, is_found}
use extractor.Astyle.{formatted_text}
use extractor.Extractor.{Extractor}
use extractor.Extractor.Parse.{parse}
use extractor.Generator.{Generator, construct_generator, set_language}
use extractor.Generator.Settings.{
  astyle_options, sub_directory, indent, highlight, skip_empty, skip_comments, skip_definitions,
  skip_callouts_of, include_omitted, exclude_marker_shown, output_path, number_lines,
  delimiter_shown,
}
pub use extractor.FileMagic.{MimeType}
use extractor.Generator.Run.{System, Paths, Action, generate}

-- The local variables of `main` that the command line fills.
pub record Options : Type 0 where
  pub parse_only : Bool
  pub enable_snippet_definitions : Bool
  pub skip_callouts : Bool
  pub print_multi_snippet_delimiter : Bool
  pub skip_exclude_marker : Bool
  pub skip_line_highlighting : Bool
  pub enable_empty_lines : Bool
  pub enable_block_comments : Bool
  pub include_omitted : Bool
  pub show_line_numbers : Bool
  pub show_help : Bool
  pub language : Bytes
  pub astyle_options : List Bytes
  pub output_file_path : Bytes
  pub extractor_sub_dir : Bytes
  pub source_file : Bytes
  pub indent : ℤ

-- `checkIfFileWasSpecified`, with `^(-{1,2})(.*)` matched against the whole text.
unfoldable pub is_option : List Item
is_option = Item.begin ∷ lit b'-' ∷ Item.opt (λ x. x == b'-') ∷ any_text ∷ Item.end ∷ []

unfoldable pub check_if_file_was_specified : Bytes → Bool
unfolding is_option is_found
check_if_file_was_specified source = not (is_found is_option source)

is_source_type : MimeType → Bool
is_source_type m =
    any_of (λ sub. bytes_eq m.type (codes "text") && bytes_eq m.sub_type sub)
      (codes "x-c" ∷ codes "x-c++" ∷ codes "x-java" ∷ [])

-- `checkMimeTypeForLanguage`; the trace reads the value of an empty `optional`.
unfoldable pub check_mime_type_for_language : Option MimeType → Bytes → Bytes → Outcome Bytes
unfolding is_source_type
check_mime_type_for_language none extension language = fault undefined
check_mime_type_for_language (some m) extension language =
    let of_type =
      if is_source_type m && (bytes_eq m.type (codes "text") && bytes_eq m.sub_type (codes "java"))
      then codes "java"
      else language in
    ok (
      if (bytes_eq m.type (codes "text") && bytes_eq m.sub_type (codes "plain"))
        && bytes_eq extension (codes ".java")
      then codes "java"
      else of_type)

-- The options for the formatter, a comma behind each.
unfoldable pub join_options : List Bytes → Bytes
join_options [] = []
join_options (o ∷ os) = o ++ (b',' ∷ join_options os)

-- The chain of settings.
unfoldable pub configure_flags : Options → Generator → Generator
unfolding skip_empty skip_definitions skip_comments skip_callouts_of delimiter_shown
    exclude_marker_shown highlight include_omitted number_lines
configure_flags o g = number_lines o.show_line_numbers (
    include_omitted o.include_omitted (
      highlight (not o.skip_line_highlighting) (
        exclude_marker_shown (not o.skip_exclude_marker) (
          delimiter_shown o.print_multi_snippet_delimiter (
            skip_callouts_of o.skip_callouts (
              skip_comments (not o.enable_block_comments) (
                skip_definitions (not o.enable_snippet_definitions)
                  (skip_empty (not o.enable_empty_lines) g))))))))

is_positive : ℤ → Bool
is_positive (pos n) = ltb 0 n
is_positive (negsuc n) = false

-- A setting that is made under a condition.
unfoldable pub when : Bool → (Generator → Generator) → Generator → Generator
when b change g = if b then change g else g

-- All settings; `language` is the one behind the check of the MIME type.
unfoldable pub configure : Options → Bytes → Generator → Generator
unfolding when configure_flags set_language astyle_options join_options output_path sub_directory
    indent is_positive
configure o language g = when (is_positive o.indent) (indent o.indent) (
    when (not (is_empty o.extractor_sub_dir)) (sub_directory o.extractor_sub_dir) (
      when (not (is_empty o.output_file_path)) (output_path o.output_file_path) (
        when (not (is_empty o.astyle_options)) (astyle_options (join_options o.astyle_options))
          (when (not (is_empty language)) (set_language language) (configure_flags o g)))))

-- What the program finds around it; `output_path` is the path with `.extractor` that the
-- constructor of the generator computes.
pub record World : Type 0 where
  pub command_line : Option Options
  pub exists : Bytes → Bool
  pub mime_type : Bytes → Option MimeType
  pub extension : Bytes → Bytes
  pub output_path : Bytes → Bytes
  pub system : System
  pub paths : Generator → Paths

-- How the program ends: whether with success, what it did to the files, and what it printed of the
-- source.
pub record Exit : Type 0 where
  pub success : Bool
  pub actions : List Action
  pub printed : Bytes

abbrev pub failure : Exit
failure = record { success = false; actions = []; printed = [] }

-- `fileContents()`, behind the lines that were parsed.
unfoldable pub join_lines : List Bytes → Bytes
join_lines [] = []
join_lines (line ∷ lines) = line ++ (10 ∷ join_lines lines)

module _ (boost : Boost) (astyle_main : Bytes → Bytes → Bytes) where
  unfoldable pub file_contents_of : Generator → Bytes
  unfolding join_lines formatted_text
  file_contents_of g = formatted_text astyle_main g.astyle (join_lines g.extractor.file_contents)

  -- The branch of `--filter-only`.
  unfoldable pub filter_only : World → Generator → Outcome Exit
  unfolding file_contents_of parse
  filter_only w g = do
    (parsed, parses) ← parse boost w.system.content g.extractor
    let text = file_contents_of (record g { extractor = parsed }) ++ (10 ∷ [])
    ok (if parses then record { success = true; actions = []; printed = text } else failure)

  unfoldable pub write_files : World → Generator → Outcome Exit
  unfolding generate
  write_files w g = do
    (done, g', actions) ← generate boost astyle_main w.system (w.paths g) g
    ok (record { success = done; actions = actions; printed = [] })

  -- With a file that is there.
  unfoldable pub process : World → Options → Outcome Exit
  unfolding check_mime_type_for_language configure construct_generator filter_only write_files
  process w o = do
    language ←
        check_mime_type_for_language (w.mime_type o.source_file) (w.extension o.source_file)
          o.language
    let g = configure o language (construct_generator o.source_file (w.output_path o.source_file))
    if o.parse_only then filter_only w g else write_files w g

  -- Whether a source file is given and there.
  unfoldable pub has_source : World → Options → Bool
  unfolding check_if_file_was_specified
  has_source w o =
      not (is_empty o.source_file)
      && (check_if_file_was_specified o.source_file && w.exists o.source_file)

  unfoldable pub run_options : World → Options → Outcome Exit
  unfolding process has_source
  run_options w o =
      if o.show_help
      then ok (record { success = true; actions = []; printed = [] })
      else (if has_source w o then process w o else ok failure)

  -- `main`; a command line that Lyra refuses is a failure.
  unfoldable pub main : World → Outcome Exit
  unfolding run_options
  main w = elim w.command_line [ none ↦ ok failure | some o ↦ run_options w o ]
