-- ===== src/Extractor/Induction.antt =====
-- extract/cppextractor.cc: induction over the rounds of `parse`, for statements about the parts of
-- the state that the branches write.
use extractor.Base.{
  ◌≡◌, Bool, false, Option, none, some, inl, inr, List, [], ◌∷◌, ℕ, Dict, Bytes, length, bytes_key,
  nat_key, Holds, Holds-bind, Holds-ok, Holds-if, ◌>>=◌, ok, Bool-cases, take, ◌&&◌, Option-cases,
}
use extractor.Boost.{Boost}
use extractor.Extractor.{Extractor, Snippet, CallOut}
use extractor.Extractor.Parse.{
  Parsing, dispatch, block_or_text, omit_or_text, normal_line, comment_line, next_line, parse_lines,
  finish, parse, ParsingStatus, normal, block_comment, start_parsing, getlines, SectionHighlight,
  push_line, call_out_line, start_line, end_line,
}
use extractor.Extractor.Patterns.{
  end_block_comment, call_out_regex, snippet_start_regex, omit_line_regex, highlight_regex,
}
use extractor.Regex.{Match, search_regex, is_found}
use extractor.Regex.Bounds.{InLine, search_regex-InLine}

pub record Core : Type 0 where
  pub line_number : ℕ
  pub file_contents : List Bytes
  pub callouts : Dict ℕ CallOut
  pub stored : Dict Bytes Snippet
  pub stack : List (ℕ × Bytes)
  pub sections : List SectionHighlight

abbrev pub core : Parsing → Core
core s = record {
  line_number = s.line_number;
  file_contents = s.self.file_contents;
  callouts = s.self.callouts;
  stored = s.self.snippets;
  stack = s.snippets;
  sections = s.section_highlight;
}

-- Each branch of a round keeps the statement `P`.
pub record Keeps (boost : Boost) (P : Core → Type 0) : Type 0 where
  pub pushes : (s : Parsing) (line : Bytes) → P (core s) → P (core (push_line s line))
  pub calls :
      (s : Parsing) (line : Bytes) (m : Match)
      → InLine m (length line)
      → P (core s)
      → Holds (λ t. P (core t)) (call_out_line s line m)
  pub starts :
      (s : Parsing) (line : Bytes) (m : Match)
      → P (core s)
      → Holds (λ t. P (core t)) (start_line boost s line m)
  pub ends : (s : Parsing) (line : Bytes) → P (core s) → P (core (end_line s line))

module _ (boost : Boost) (P : Core → Type 0) (keeps : Keeps boost P) where
  open keeps use {pushes, calls, starts, ends}

  abbrev AtCore : Parsing → Type 0
  AtCore s = P (core s)

  dispatch-Keeps : (s : Parsing) (line : Bytes) → P (core s) → Holds AtCore (dispatch boost s line)
  unfolding dispatch
  dispatch-Keeps s line h = elim (Option-cases (search_regex (call_out_regex s.self.lua) line)) [
    | inr (m, called) ↦ rw (called, dispatch) (calls s line m (search_regex-InLine _ line called) h)
    | inl not_called ↦
        rw (not_called, dispatch)
          (elim (Option-cases (search_regex (snippet_start_regex s.self.lua) line)) [
            | inr (m, started) ↦ rw (started, dispatch) (starts s line m h)
            | inl not_started ↦
                rw (not_started, dispatch)
                  (Holds-if AtCore _ (ok _) (ok _) (ends s line h) (pushes s line h))
          ])
  ]

  block_or_text-Keeps :
      (s : Parsing) (line : Bytes) → P (core s) → Holds AtCore (block_or_text boost s line)
  unfolding block_or_text
  block_or_text-Keeps s line h =
      Holds-if AtCore _ (ok _) (dispatch boost s line) h (dispatch-Keeps s line h)

  omit_or_text-Keeps :
      (s : Parsing) (line : Bytes) → P (core s) → Holds AtCore (omit_or_text boost s line)
  unfolding omit_or_text
  omit_or_text-Keeps s line h = elim (Option-cases (search_regex omit_line_regex line)) [
    | inl kept ↦ rw (kept, omit_or_text) (block_or_text-Keeps s line h)
    | inr (m, marked) ↦
        rw (marked, omit_or_text)
          (Holds-if AtCore s.self.include_omitted_lines _ (ok _)
            (block_or_text-Keeps s (take m.first line) h) h)
  ]

  normal_line-Keeps :
      (s : Parsing) (line : Bytes) → P (core s) → Holds AtCore (normal_line boost s line)
  unfolding normal_line
  normal_line-Keeps s line h = elim (Option-cases (search_regex highlight_regex line)) [
    | inl plain ↦ rw (plain, normal_line) (omit_or_text-Keeps s line h)
    | inr (m, marked) ↦ rw (marked, normal_line) (omit_or_text-Keeps _ (take m.first line) h)
  ]

  comment_line-Keeps : (s : Parsing) (line : Bytes) → P (core s) → P (core (comment_line s line))
  unfolding comment_line
  comment_line-Keeps s line h =
      elim (Bool-cases
        (s.self.skip_block_comments && is_found (end_block_comment s.self.lua) line)) [
          | inl ended ↦ rw ended h
          | inr inside ↦ rw inside h
        ]

  switch-Keeps :
      (status : ParsingStatus) (s : Parsing) (line : Bytes)
      → P (core s)
      → Holds AtCore (elim status [
        | normal ↦ normal_line boost s line
        | block_comment ↦ ok (comment_line s line)
      ])
  switch-Keeps normal s line h = normal_line-Keeps s line h
  switch-Keeps block_comment s line h = comment_line-Keeps s line h

  next_line-Keeps :
      (s : Parsing) (line : Bytes) → P (core s) → Holds AtCore (next_line boost s line)
  unfolding next_line
  next_line-Keeps s line h = Holds-if AtCore _ (ok _) _ h (switch-Keeps s.status _ line h)

  parse_lines-Keeps :
      (s : Parsing) (lines : List Bytes) → P (core s) → Holds AtCore (parse_lines boost s lines)
  unfolding parse_lines
  parse_lines-Keeps s [] h = h
  parse_lines-Keeps s (line ∷ lines) h =
      Holds-bind AtCore (next_line boost s line) _
        λ s' e. parse_lines-Keeps s' lines (Holds-ok AtCore _ (next_line-Keeps s line h) e)

  -- What holds of an object with nothing parsed, and of the object behind a loop that kept `P`,
  -- holds of every result.
  pub parse_induction :
      (Q : Extractor × Bool → Type 0) (files : Bytes → Option Bytes) (e : Extractor)
      → Q (e, false)
      → P (core (start_parsing e))
      → ((s : Parsing) → P (core s) → Q (finish s))
      → Holds Q (parse boost files e)
  unfolding parse
  parse_induction Q files e unopened start finished = from_file (files e.path)
    where
      from_file :
          (content : Option Bytes)
          → Holds Q (elim content [
            | none ↦ ok (e, false)
            | some text ↦ parse_lines boost (start_parsing e) (getlines text) >>= λ s. ok (finish s)
          ])
      from_file none = unopened
      from_file (some text) =
          Holds-bind Q (parse_lines boost (start_parsing e) (getlines text)) _ λ s k.
            finished s
              (Holds-ok AtCore _ (parse_lines-Keeps (start_parsing e) (getlines text) start) k)

-- A new object, and any object that has parsed nothing.
pub record IsFresh (e : Extractor) : Type 0 where
  pub no_lines : e.file_contents ≡ []
  pub no_callouts : e.callouts ≡ []
  pub no_snippets : e.snippets ≡ []
