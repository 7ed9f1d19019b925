-- ===== src/Tests/Parsing.antt =====
-- Runs of `parse`, and its theorems at concrete files.
use extractor.Base.{
  none, is_space, ◌≡◌, ◌↔◌, refl, true, not, is_empty, List, [], ◌∷◌, Option, some, arith, Bytes,
  codes, ok, fault, out_of_range, to_string, pos, bytes_key, Any,
}
use extractor.Extractor.{Extractor, Snippet, construct}
use extractor.Extractor.Parse.{parse, getlines, Parsing, start_parsing, dispatch}
use extractor.Extractor.CallOuts.{IsCallOut, dispatch-call_out}
use extractor.Extractor.Bounds.{IsStored}
use extractor.Extractor.Induction.{IsFresh}
use extractor.Extractor.Bounds.Whole.{parse-IsStored}
use extractor.Extractor.Plain.{parse_plain, kept}
use extractor.Extractor.Query.{is_line_excluded, has_exclude_text, exclude_text}
use extractor.Extractor.Query.Agree.{Excludes, is_line_excluded_iff, has_exclude_text_agrees}
use extractor.Extractor.Sections.{
  Nesting, starts, ends, sections_after, open_after, innermost_included, own_highlight,
  tops_included-sections_after,
}
use extractor.Extractor.Parse.{tops_included}
use extractor.Tests.Plain.{plain, plain_parse}

-- A snippet that leaves out the one nested in it, with a callout.
abbrev pub nested_file : Bytes → Option Bytes
nested_file path = some (codes "//[ a -b\nx; // <1> one\n//[ b +* : cut here\ny;\n//]\n//]\n")

abbrev pub fresh : Extractor
fresh = construct (codes "a.cc")

pub fresh-IsFresh : IsFresh fresh
fresh-IsFresh = record { no_lines = refl; no_callouts = refl; no_snippets = refl }

abbrev pub outer : Snippet
outer = record {
  line_spans = (0, 2) ∷ [];
  name = codes "a";
  excludes = codes "b" ∷ [];
  text_if_excluded = [];
}

abbrev pub inner : Snippet
inner = record {
  line_spans = (1, 2) ∷ [];
  name = codes "b";
  excludes = [];
  text_if_excluded = codes "cut here";
}

abbrev pub whole : Snippet
whole = record {
  line_spans = (0, 2) ∷ [];
  name = codes "all";
  excludes = [];
  text_if_excluded = [];
}

abbrev pub nested : Extractor
nested = record fresh {
  file_contents = codes "x; // <1> one" ∷ codes "y;" ∷ [];
  callouts =
      (
        0,
        record {
          line_number = 0;
          column = 6;
          number = pos 1;
          text = codes "one";
          comment_column = 3;
        },
      )
      ∷ [];
  snippets = (codes "a", outer) ∷ (codes "all", whole) ∷ (codes "b", inner) ∷ [];
  highlighted_lines = 1 ∷ [];
}

pub parse-nested : parse plain nested_file fresh ≡ ok (nested, true)
unfolding plain_parse
parse-nested = refl

parse-IsStored_example : IsStored nested
parse-IsStored_example = parse-IsStored plain nested_file fresh fresh-IsFresh parse-nested

abbrev plain_file : Bytes → Option Bytes
plain_file path = some (codes "int x;\n\nint y;\n")

parse_plain_example :
    parse plain plain_file fresh
    ≡ ok (
      record fresh {
        file_contents = codes "int x;" ∷ codes "int y;" ∷ [];
        snippets =
            (
              codes "all",
              record {
                line_spans = (0, 2) ∷ [];
                name = codes "all";
                excludes = [];
                text_if_excluded = [];
              },
            )
            ∷ [];
      },
      true,
    )
unfolding kept getlines
parse_plain_example =
    parse_plain plain plain_file fresh (codes "int x;\n\nint y;\n") fresh-IsFresh refl refl
      (omega arith)

is_line_excluded_iff_example :
    (is_line_excluded nested outer 1 ≡ true) ↔ Any (Excludes nested.snippets 1) (codes "b" ∷ [])
is_line_excluded_iff_example = is_line_excluded_iff nested outer 1

has_exclude_text_agrees_example :
    (has_exclude_text nested outer 1 ≡ not (is_empty (exclude_text nested outer 1)))
    × (has_exclude_text nested outer 1 ≡ true → is_line_excluded nested outer 1 ≡ true)
has_exclude_text_agrees_example = has_exclude_text_agrees nested outer 1

abbrev events : List Nesting
events = ends ∷ starts (codes "c +*") ∷ starts (codes "b") ∷ starts (codes "a -*") ∷ []

tops_included-sections_after_example :
    tops_included (sections_after events) ≡ innermost_included (open_after events)
tops_included-sections_after_example = tops_included-sections_after events

-- A mark at the start of the trimmed rest of a line is none, as in `//[+*`.
unmarked : own_highlight (codes "+*") ≡ none
unfolding is_space
unmarked = refl

abbrev call_out_state : Parsing
call_out_state = start_parsing (construct (codes "a.cc"))

code-IsCallOut : IsCallOut b'/' (codes "f();") [] (codes " ") (codes "call")
unfolding is_space
code-IsCallOut = record {
  code_lacks = ((λ e. cc), ((λ e. cc), ((λ e. cc), ((λ e. cc), tt))));
  blank_spaces = tt;
  blank'_spaces = (refl, tt);
  text_visible = refl;
  one_line = (refl, (refl, (refl, (refl, tt))));
}

-- 2^31 is no `int`.
call_out-too_large :
    dispatch plain call_out_state (codes "f();//<2147483648> call") ≡ fault out_of_range
unfolding to_string
call_out-too_large =
    dispatch-call_out plain call_out_state (some 2147483648) (codes "f();") [] (codes " ")
      (codes "call") code-IsCallOut
