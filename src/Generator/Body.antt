-- ===== src/Generator/Body.antt =====
-- extract/asciidocsnippetfilegenerator.cc: the loops of `generate` that collect the code lines of
-- one snippet.
use extractor.Base.{
  ℕ, zero, suc, ◌+◌, ◌-◌, Bool, true, false, not, ◌&&◌, none, some, List, [], ◌∷◌, ◌++◌, Bytes, ltb,
  ◌==◌, if◌then◌else◌, length, take, get_elem?, lookup, codes, to_string, any_of, Outcome, ok,
  fault, out_of_range, undefined, ◌>>=◌, nat_key,
}
use extractor.Extractor.{Snippet, CallOut}
use extractor.Extractor.Query.{is_line_excluded, has_exclude_text, exclude_text}
use extractor.Generator.{Generator}

-- The local variables that the loops write.
pub record Body : Type 0 where
  pub co_number : ℕ
  pub callout_line_numbers : List ℕ
  pub code_line_number : ℕ
  pub highlighted_snippet_lines : List ℕ
  pub code_lines : Bytes
  pub print_exclude_marker_for_line : Bool

abbrev pub start_body : Body
start_body = record {
  co_number = 1;
  callout_line_numbers = [];
  code_line_number = 1;
  highlighted_snippet_lines = [];
  code_lines = [];
  print_exclude_marker_for_line = true;
}

-- `line.replace(pos, line.length(), text)`
unfoldable pub replace_from : ℕ → Bytes → Bytes → Outcome Bytes
replace_from pos text line =
    if ltb (length line) pos then fault out_of_range else ok (take pos line ++ text)

-- The line as it is shown when a callout is on it.
unfoldable pub callout_text : Generator → CallOut → ℕ → Bytes → Outcome Bytes
unfolding replace_from
callout_text g co number line =
    if g.skip_callouts
    then replace_from co.comment_column [] line
    else replace_from co.column (codes "<" ++ (to_string number ++ codes ">")) line

unfoldable pub mark_callout : Generator → ℕ → Body → Bytes → Outcome (Body × Bytes)
unfolding callout_text
mark_callout g n b line = elim (lookup n g.extractor.callouts) [
  | none ↦ ok (b, line)
  | some co ↦ do
    shown ← callout_text g co b.co_number line
    ok (
      record b {
        callout_line_numbers = b.callout_line_numbers ++ n ∷ [];
        co_number = b.co_number + 1;
      },
      shown,
    )
]

-- A line that is not excluded.
unfoldable pub shown_line : Generator → ℕ → Body → Outcome Body
unfolding mark_callout
shown_line g n b = elim (get_elem? g.extractor.file_contents n) [
  | none ↦ fault undefined
  | some line ↦ do
    let highlighted =
        if any_of (λ m. m == n) g.extractor.highlighted_lines
        then b.highlighted_snippet_lines ++ b.code_line_number ∷ []
        else b.highlighted_snippet_lines
    (b', shown) ←
        mark_callout g n
          (record b {
            print_exclude_marker_for_line = true;
            highlighted_snippet_lines = highlighted;
          })
          line
    ok (record b' { code_lines = b'.code_lines ++ (shown ++ 10 ∷ []) })
]

-- What stands in the place of excluded lines.
unfoldable pub exclude_mark : Generator → Snippet → ℕ → Bytes
exclude_mark g s n =
    if has_exclude_text g.extractor s n
    then codes "// " ++ (exclude_text g.extractor s n ++ codes "\n")
    else g.exclude_marker

-- An excluded line.
unfoldable pub excluded_line : Generator → Snippet → ℕ → Body → Body
unfolding exclude_mark
excluded_line g s n b =
    if b.print_exclude_marker_for_line
    then record b {
      code_lines =
          if g.print_exclude_marker then b.code_lines ++ exclude_mark g s n else b.code_lines;
      print_exclude_marker_for_line = false;
    }
    else b

-- One round of the loop over the lines of a span.
unfoldable pub body_line : Generator → Snippet → ℕ → Body → Outcome Body
unfolding shown_line excluded_line
body_line g s n b = do
  b' ←
      if not (is_line_excluded g.extractor s n)
      then shown_line g n b
      else ok (excluded_line g s n b)
  ok (record b' { code_line_number = b'.code_line_number + 1 })

-- `for (lineNumber = n; lineNumber < n + rounds; ++lineNumber)`
unfoldable pub body_lines : Generator → Snippet → ℕ → ℕ → Body → Outcome Body
unfolding body_line
body_lines g s n zero b = ok b
body_lines g s n (suc rounds) b = do b' ← body_line g s n b; body_lines g s (suc n) rounds b'

-- The delimiter before every span but the first.
unfoldable pub delimit : Generator → Bool → Body → Body
delimit g first b =
    if not first && g.print_multi_snippet_delimiter
    then record b { code_lines = b.code_lines ++ g.multi_snippet_delimiter }
    else b

-- The loop over the spans; the flag is `isFirstElement`.
unfoldable pub body_spans : Generator → Snippet → Bool → List (ℕ × ℕ) → Body → Outcome Body
unfolding body_lines delimit
body_spans g s first [] b = ok b
body_spans g s first ((from, to) ∷ spans) b = do
  b' ←
      body_lines g s from (to - from)
        (record (delimit g first b) { print_exclude_marker_for_line = true })
  body_spans g s false spans b'

unfoldable pub body : Generator → Snippet → Outcome Body
unfolding body_spans
body g s = body_spans g s true s.line_spans start_body
