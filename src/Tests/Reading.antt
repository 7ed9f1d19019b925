-- ===== src/Tests/Reading.antt =====
-- Runs of the reader of snippets, and its theorems at concrete lists.
use extractor.Base.{
  Option, true, Bytes, ◌≡◌, refl, [], ◌∷◌, some, none, codes, bytes_key, arith, to_string, false,
  bytes_eq, is_space, bytes_less,
}
use extractor.Extractor.Print.{print_snippets}
use extractor.Extractor.Read.{read_snippets}
use extractor.Extractor.Read.RoundTrip.{IsReadable}
use extractor.Extractor.Read.Whole.{read_snippets-print_snippets}
use extractor.Extractor.Read.Endless.{read_snippets-endless}
use extractor.Desertest.{desertest_main, desertest_main-print_snippets}
use extractor.Streams.Input.{at, read_pair}
use extractor.Streams.Pairs.{failed, read_pair-numerals}
use extractor.Tests.Parsing.{nested, outer, inner, whole}

outer-IsReadable : IsReadable outer
unfolding is_space bytes_eq bytes_less
outer-IsReadable = record {
  name_IsToken = (refl, tt);
  spans_some = λ e. cc;
  spans_fit = ((omega arith, omega arith), tt);
  elements = (((refl, tt), refl, refl), tt);
  ascending = (tt, tt);
}

whole-IsReadable : IsReadable whole
unfolding is_space
whole-IsReadable = record {
  name_IsToken = (refl, (refl, (refl, tt)));
  spans_some = λ e. cc;
  spans_fit = ((omega arith, omega arith), tt);
  elements = tt;
  ascending = tt;
}

inner-IsReadable : IsReadable inner
unfolding is_space
inner-IsReadable = record {
  name_IsToken = (refl, tt);
  spans_some = λ e. cc;
  spans_fit = ((omega arith, omega arith), tt);
  elements = tt;
  ascending = tt;
}

read_snippets-print_snippets_example :
    read_snippets 20 (some (print_snippets nested.snippets))
    ≡ some (outer ∷ whole ∷ record inner { text_if_excluded = [] } ∷ [])
read_snippets-print_snippets_example =
    read_snippets-print_snippets 20 nested.snippets (omega arith)
      (outer-IsReadable, (whole-IsReadable, (inner-IsReadable, tt)))

read_snippets-endless_example : read_snippets 100 (some (codes "Snippet [ a [ ( 0 , 2 ")) ≡ none
unfolding is_space
read_snippets-endless_example =
    read_snippets-endless 100 (codes "a") (codes "( 0 , 2 ") (refl, tt)
      (refl, (refl, (refl, (refl, (refl, (refl, (refl, (refl, tt))))))))

abbrev list_file : Bytes → Option Bytes
list_file path = some (print_snippets nested.snippets)

desertest_main-print_snippets_example : desertest_main 20 list_file ≡ list_file (codes "test.ccex")
desertest_main-print_snippets_example =
    desertest_main-print_snippets 20 list_file nested.snippets refl (omega arith)
      (outer-IsReadable, (whole-IsReadable, (inner-IsReadable, tt)))

-- 2^64 is too large by one: the pair stays as it was.
read_pair-too_large :
    read_pair (7, 8) (at (codes " ( 18446744073709551616 , 1 ) "))
    ≡ ((7, 8), failed (codes " , 1 ) "))
unfolding to_string
read_pair-too_large = read_pair-numerals (7, 8) false false 18446744073709551616 1 []

-- -1 wraps around.
read_pair-numerals_example :
    read_pair (7, 8) (at (codes " ( 5 , -1 ) ")) ≡ ((5, 18446744073709551615), at (codes " "))
unfolding to_string
read_pair-numerals_example = read_pair-numerals (7, 8) false true 5 1 []
