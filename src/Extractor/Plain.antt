-- ===== src/Extractor/Plain.antt =====
-- extract/cppextractor.cc: `parse` on source text that holds no mark of the extractor.
use extractor.Base.{
  ℕ, ◌+◌, ◌≡◌, ◌∙◌, refl, Bool, true, false, ◌&&◌, Option, some, inl, inr, List, [], ◌∷◌, ◌++◌,
  arith, Bytes, All, length, append_assoc, append-nil, is_empty, codes, emplace, bytes_key, nat_key,
  ◌==◌, ==_iff, if◌then◌else◌, ok, Bool-cases,
}
use extractor.Boost.{Boost}
use extractor.Regex.Needs.{Needs, Lacks, search_regex-none, is_found-false}
use extractor.Extractor.{Extractor}
use extractor.Extractor.Patterns.{
  start_block_comment, call_out_regex, snippet_start_regex, snippet_end_regex, omit_line_regex,
  highlight_regex,
}
use extractor.Extractor.Parse.{
  Parsing, normal, start_parsing, getlines, push_line, dispatch, block_or_text, omit_or_text,
  normal_line, next_line, parse_lines, finish, parse,
}
use extractor.Extractor.Induction.{IsFresh}

-- The lines that are kept of a text without marks.
unfoldable pub kept : Bool → List Bytes → List Bytes
kept skip_empty [] = []
kept skip_empty (line ∷ lines) =
    if skip_empty && is_empty line then kept skip_empty lines else line ∷ kept skip_empty lines

is_slash : (x : ℕ) → (x == b'/') ≡ true → x ≡ b'/'
is_slash x = (==_iff x b'/').0

-- The patterns of C++ and Java that a line outside of a block comment is tried for.
highlight-Needs : Needs b'/' highlight_regex
unfolding highlight_regex
highlight-Needs = inl is_slash

omit-Needs : Needs b'/' omit_line_regex
unfolding omit_line_regex
omit-Needs = inl is_slash

start_block-Needs : Needs b'/' (start_block_comment false)
unfolding start_block_comment
start_block-Needs = inl is_slash

call_out-Needs : Needs b'/' (call_out_regex false)
unfolding call_out_regex
call_out-Needs = inl is_slash

snippet_start-Needs : Needs b'/' (snippet_start_regex false)
unfolding snippet_start_regex
snippet_start-Needs = inl is_slash

snippet_end-Needs : Needs b'/' (snippet_end_regex false)
unfolding snippet_end_regex
snippet_end-Needs = inl is_slash

-- A line without a slash is stored.
normal_line_plain :
    (boost : Boost) (s : Parsing) (line : Bytes)
    → s.self.lua ≡ false
    → Lacks b'/' line
    → normal_line boost s line ≡ ok (push_line s line)
unfolding normal_line omit_or_text block_or_text dispatch
normal_line_plain boost s line cpp l = ground (
  arith,
  search_regex-none b'/' highlight_regex highlight-Needs line l,
  search_regex-none b'/' omit_line_regex omit-Needs line l,
  is_found-false b'/' (start_block_comment false) start_block-Needs line l,
  search_regex-none b'/' (call_out_regex false) call_out-Needs line l,
  search_regex-none b'/' (snippet_start_regex false) snippet_start-Needs line l,
  is_found-false b'/' (snippet_end_regex false) snippet_end-Needs line l,
)

-- The state after lines without a slash.
abbrev after_plain : Parsing → List Bytes → Parsing
after_plain s lines =
    let more = kept s.self.skip_empty_lines lines in
    record s {
      self = record s.self { file_contents = s.self.file_contents ++ more };
      line_number = s.line_number + length more;
      file_line_number = s.file_line_number + length lines;
    }

next_line_empty :
    (boost : Boost) (s : Parsing) (line : Bytes)
    → (s.self.skip_empty_lines && is_empty line) ≡ true
    → next_line boost s line ≡ ok (record s { file_line_number = s.file_line_number + 1 })
unfolding next_line
next_line_empty boost s line h = ground arith

next_line_plain :
    (boost : Boost) (s : Parsing) (line : Bytes)
    → s.self.lua ≡ false
    → s.status ≡ normal
    → s.section_highlight ≡ []
    → Lacks b'/' line
    → (s.self.skip_empty_lines && is_empty line) ≡ false
    → next_line boost s line
      ≡ ok (record s {
        self = record s.self { file_contents = s.self.file_contents ++ line ∷ [] };
        line_number = s.line_number + 1;
        file_line_number = s.file_line_number + 1;
      })
unfolding next_line push_line
next_line_plain boost s line cpp status sections l h = ground (
  arith,
  normal_line_plain boost (record s { file_line_number = s.file_line_number + 1 }) line cpp l,
)

parse_lines_plain :
    (boost : Boost) (s : Parsing) (lines : List Bytes)
    → s.self.lua ≡ false
    → s.status ≡ normal
    → s.section_highlight ≡ []
    → All (Lacks b'/') lines
    → parse_lines boost s lines ≡ ok (after_plain s lines)
unfolding parse_lines kept
parse_lines_plain boost s [] cpp status sections l = ground (arith, append-nil s.self.file_contents)
parse_lines_plain boost s (line ∷ lines) cpp status sections l =
    elim (Bool-cases (s.self.skip_empty_lines && is_empty line)) [
      | inl empty ↦
          let s' = record s { file_line_number = s.file_line_number + 1 } in
          rw (next_line_empty boost s line empty)
            (parse_lines_plain boost s' lines cpp status sections l.1 ∙ ground (arith, empty))
      | inr text ↦
          let s' = record s {
            self = record s.self { file_contents = s.self.file_contents ++ line ∷ [] };
            line_number = s.line_number + 1;
            file_line_number = s.file_line_number + 1;
          } in
          let more = kept s.self.skip_empty_lines lines in
          rw (next_line_plain boost s line cpp status sections l.0 text) (
            parse_lines_plain boost s' lines cpp status sections l.1
            ∙ ground (arith, append_assoc s.self.file_contents (line ∷ []) more, text))
    ]

-- With Lua off, a file without a slash is stored line by line, its empty lines left out where they
-- are to be skipped; its only snippet is "all", which spans all that is stored, and there are no
-- callouts and no highlighted lines.
pub parse_plain :
    (boost : Boost) (files : Bytes → Option Bytes) (e : Extractor) (text : Bytes)
    → IsFresh e
    → e.lua ≡ false
    → files e.path ≡ some text
    → All (Lacks b'/') (getlines text)
    → parse boost files e
      ≡ ok (
        record e {
          file_contents = kept e.skip_empty_lines (getlines text);
          snippets =
              (
                codes "all",
                record {
                  line_spans = (0, length (kept e.skip_empty_lines (getlines text))) ∷ [];
                  name = codes "all";
                  excludes = [];
                  text_if_excluded = [];
                },
              )
              ∷ [];
        },
        true,
      )
unfolding parse finish emplace
parse_plain boost files e text fresh cpp opens l = ground (
  arith,
  parse_lines_plain boost (start_parsing e) (getlines text) cpp refl refl l,
  fresh.no_lines,
  fresh.no_snippets,
)
