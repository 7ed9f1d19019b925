-- ===== src/Extractor/Parse/State.antt =====
-- extract/cppextractor.cc: the state of the loop of `parse`, the lines behind its `switch`, and the
-- branch of a callout.
use extractor.Base.{
  ℕ, ◌+◌, Bool, true, false, ◌&&◌, List, [], ◌∷◌, ◌++◌, Bytes, Dict, ltb, ◌==◌, if◌then◌else◌,
  assign, digits_value, ℤ, pos, negsuc, Outcome, ok, fault, out_of_range, ◌>>=◌, nat_key, bytes_key,
}
use extractor.Regex.{Match, mark_at, group}
use extractor.Extractor.{CallOut, Extractor}

pub data ParsingStatus : Type 0 where
  normal block_comment : ParsingStatus

pub data SectionHighlight : Type 0 where
  included excluded : SectionHighlight

-- `self` is the object; `snippets` is the stack of the open snippets, its top first.
pub record Parsing : Type 0 where
  pub self : Extractor
  pub status : ParsingStatus
  pub line_number : ℕ
  pub file_line_number : ℕ
  pub snippets : List (ℕ × Bytes)
  pub excludes : Dict Bytes (List Bytes)
  pub exclude_texts : Dict Bytes Bytes
  pub section_highlight : List SectionHighlight

abbrev pub start_parsing : Extractor → Parsing
start_parsing e = record {
  self = e;
  status = normal;
  line_number = 0;
  file_line_number = 0;
  snippets = [];
  excludes = [];
  exclude_texts = [];
  section_highlight = [];
}

-- The content of a file as `std::getline` hands it out.
cons_first : ℕ → List Bytes → List Bytes
cons_first c [] = (c ∷ []) ∷ []
cons_first c (l ∷ ls) = (c ∷ l) ∷ ls

unfoldable pub getlines : Bytes → List Bytes
unfolding cons_first
getlines [] = []
getlines (c ∷ s) = if c == 10 then [] ∷ getlines s else cons_first c (getlines s)

-- The lines behind the `switch` branches: a section that is marked highlights the line, and the
-- line is stored.
unfoldable pub tops_included : List SectionHighlight → Bool
tops_included (included ∷ _) = true
tops_included _ = false

unfoldable pub push_line : Parsing → Bytes → Parsing
unfolding tops_included
push_line s line =
    let e = s.self in
    let lit_up =
      if e.highlight_lines && tops_included s.section_highlight
      then e.highlighted_lines ++ s.line_number ∷ []
      else e.highlighted_lines in
    record s {
      self = record e { highlighted_lines = lit_up; file_contents = e.file_contents ++ line ∷ [] };
      line_number = s.line_number + 1;
    }

-- `int number = -1; if (matches[2].length() > 0) number = std::stoi(matches[2]);`
unfoldable pub stoi : Bytes → Outcome ℤ
stoi [] = ok (negsuc 0)
stoi (c ∷ s) =
    let n = digits_value 0 (c ∷ s) in if ltb 2147483647 n then fault out_of_range else ok (pos n)

unfoldable pub call_out_line : Parsing → Bytes → Match → Outcome Parsing
unfolding push_line stoi
call_out_line s line m = do
  number ← stoi (group m 1 2 line)
  let co : CallOut = record {
    line_number = s.line_number;
    column = mark_at m 0;
    number = number;
    text = group m 4 5 line;
    comment_column = m.first;
  }
  let e = record s.self { callouts = assign s.line_number co s.self.callouts }
  ok (push_line (record s { self = e }) line)
