-- ===== src/Tests/Plain.antt =====
-- The Boost operations as plain functions, so that the definitions run.
use extractor.Base.{
  ℕ, zero, suc, ◌-◌, Bool, true, false, ◌||◌, List, [], ◌∷◌, ◌++◌, Bytes, ◌==◌, if◌then◌else◌,
  length,
}
use extractor.Base.{
  Option, Outcome, is_space, is_digit, digits_value, bytes_eq, bytes_less, lookup, lookup_or,
  assign, emplace, insert, insert_all,
}
use extractor.Regex.{search_regex, is_found}
use extractor.Extractor.{Extractor}
use extractor.Extractor.Patterns.{
  start_block_comment, end_block_comment, call_out_regex, snippet_start_regex, snippet_end_regex,
  omit_line_regex, highlight_regex, highlight_section_include_regex,
  highlight_section_exclude_regex,
}
use extractor.Extractor.Parse.{parse}
use extractor.Boost.{Boost}
use extractor.Util.{trim, is_prefix}

is_separator : ℕ → Bool
is_separator c = c == 32 || c == 9

starts_apart : Bytes → Bool
unfolding is_separator
starts_apart [] = false
starts_apart (c ∷ s) = is_separator c

at_char : ℕ → Bool → Bool → List (ℕ × ℕ) → List (ℕ × ℕ)
at_char p apart again [] = []
at_char p true true ((a, b) ∷ names) = (p, p) ∷ names
at_char p true false ((a, b) ∷ names) = (p, p) ∷ (a, b) ∷ names
at_char p false again ((a, b) ∷ names) = (p, b) ∷ names

-- The names from position `p` on: a name grows to the left, and a run of separators is one cut.
split_from : ℕ → Bytes → List (ℕ × ℕ)
unfolding is_separator
split_from p [] = (p, p) ∷ []
split_from p (c ∷ s) = at_char p (is_separator c) (starts_apart s) (split_from (suc p) s)

contains_text : Bytes → Bytes → Bool
unfolding is_prefix
contains_text [] part = is_prefix part []
contains_text (c ∷ s) part = is_prefix part (c ∷ s) || contains_text s part

-- `skip` counts the characters of an occurrence that are still to be left out.
replace_from : Bytes → Bytes → ℕ → Bytes → Bytes
unfolding is_prefix
replace_from part by skip [] = []
replace_from part by (suc skip) (c ∷ s) = replace_from part by skip s
replace_from part by zero (c ∷ s) =
    let here = by ++ replace_from part by (length part - 1) s in
    let there = c ∷ replace_from part by zero s in if is_prefix part (c ∷ s) then here else there

unfoldable pub plain : Boost
unfolding trim split_from starts_apart at_char contains_text replace_from
plain = record {
  trim = trim;
  split = split_from 0;
  contains = contains_text;
  replace_all = λ s part by. replace_from part by 0 s;
}

-- `parse` with these operations, and all that it computes with.
unfoldable pub plain_parse : (Bytes → Option Bytes) → Extractor → Outcome (Extractor × Bool)
unfolding plain parse search_regex is_found start_block_comment end_block_comment call_out_regex
    snippet_start_regex snippet_end_regex omit_line_regex highlight_regex
    highlight_section_include_regex highlight_section_exclude_regex is_space is_digit digits_value
    bytes_eq bytes_less lookup lookup_or assign emplace insert insert_all
plain_parse = parse plain
