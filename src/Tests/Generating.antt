-- ===== src/Tests/Generating.antt =====
-- Runs of the generator, and its theorems at a concrete file.
use extractor.Base.{
  ◌≡◌, refl, true, [], none, some, arith, Bytes, codes, Outcome, ok, lookup, nat_key, bytes_key,
  bytes_eq, to_string, ◌-◌, All,
}
use extractor.Extractor.{Snippet}
use extractor.Extractor.Query.{is_line_excluded}
use extractor.Generator.{Generator, construct_generator}
use extractor.Generator.Body.{Body, start_body, body, body_lines}
use extractor.Extractor.Query.{has_exclude_text, exclude_text}
use extractor.Astyle.{formatted_c_text}
use extractor.Generator.Text.{snippet_text}
use extractor.Generator.Total.{snippet_text_total}
use extractor.Generator.Lines.{
  AllExcluded, after_excluded, body_lines_excluded, NoCallouts, body_shown,
}
use extractor.Tests.Plain.{plain}
use extractor.Tests.Parsing.{nested_file, fresh, fresh-IsFresh, nested, outer, inner, parse-nested}

-- A formatter that changes nothing.
abbrev pub unformatted : Bytes → Bytes → Bytes
unformatted text options = text

abbrev generator : Generator
generator = record (construct_generator (codes "a.cc") (codes "a.extractor")) {
  extractor = nested;
  caption = codes ".%f %s%o";
}

-- `snippet_text` with these parameters, and all that it computes with.
plain_text : Generator → Bytes → Snippet → Outcome Bytes
unfolding construct_generator snippet_text body is_line_excluded has_exclude_text exclude_text
    formatted_c_text plain lookup bytes_eq to_string
plain_text = snippet_text plain unformatted

snippet_text-outer :
    snippet_text plain unformatted generator (codes "a.cc") outer
    ≡ ok (
        codes
          ".a.cc [Snippet: a]\n[source,cpp,indent=0]\n----\nx; // <1>\n// cut here\n----\n<1> one\n")
unfolding plain_text
snippet_text-outer = refl

snippet_text-inner :
    snippet_text plain unformatted generator (codes "a.cc") inner
    ≡ ok (codes ".a.cc [Snippet: b]\n[source,cpp,highlight=\"1\",indent=0]\n----\ny;\n----\n")
unfolding plain_text
snippet_text-inner = refl

outer_is_stored : lookup (codes "a") nested.snippets ≡ some outer
unfolding plain_text
outer_is_stored = refl

snippet_text_total_example :
    (text : Bytes) × (snippet_text plain unformatted generator (codes "a.cc") outer ≡ ok text)
snippet_text_total_example =
    snippet_text_total plain unformatted nested_file fresh fresh-IsFresh parse-nested generator refl
      (codes "a.cc") (codes "a") outer_is_stored

line_1_excluded : is_line_excluded nested outer 1 ≡ true
unfolding plain_text
line_1_excluded = refl

outer_excludes : AllExcluded generator outer 1 1
outer_excludes k above below = let same : k ≡ 1 = omega arith in rw same line_1_excluded

body_lines_excluded_example :
    body_lines generator outer 1 1 start_body ≡ ok (after_excluded generator outer 1 1 start_body)
body_lines_excluded_example = body_lines_excluded generator outer 1 0 start_body outer_excludes

no_callout_on_line_1 : lookup 1 nested.callouts ≡ none
unfolding plain_text
no_callout_on_line_1 = refl

inner_plain : All (λ x. NoCallouts generator x.0 (x.1 - x.0)) inner.line_spans
inner_plain =
    ((λ k above below. let same : k ≡ 1 = omega arith in rw same no_callout_on_line_1), tt)

body_shown_example :
    (r : Body) × (body generator inner ≡ ok r)
    × (r.code_lines ≡ codes "y;\n")
    × (r.callout_line_numbers ≡ [])
body_shown_example = body_shown generator inner refl (omega arith) inner_plain
