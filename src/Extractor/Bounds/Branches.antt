-- ===== src/Extractor/Bounds/Branches.antt =====
-- extract/cppextractor.cc: the branches of a round of `parse` against its invariant.
use extractor.Base.{
  ℕ, ◌+◌, ◌≤◌, ◌≡◌, refl, Bool, true, false, inl, inr, List, [], ◌∷◌, arith, Bytes, length, All,
  All-append, bytes_key, nat_key, lookup, assign-All, Holds, Holds-bind, emplace-All, lookup-All,
  Bool-cases, codes, slice, ltb, if◌then◌else◌, ◌-◌, drop, Option-cases,
}
use extractor.Boost.{Boost}
use extractor.Extractor.Parse.{
  Parsing, SectionHighlight, push_line, push_section, call_out_line, stoi, start_line,
  start_unnamed, start_named, snippet_name_of, end_line, closed_snippets, close_snippet, pop,
  exclude_names,
}
use extractor.Regex.{Match, group}
use extractor.Regex.Bounds.{InLine, mark_at-le}
use extractor.Extractor.Bounds.{
  SnippetFits, IsSound, append-IsSoundAt, append_called-IsSoundAt, open-IsSoundAt,
}

pub push_line-IsSound : (s : Parsing) (line : Bytes) → IsSound s → IsSound (push_line s line)
unfolding push_line
push_line-IsSound s line h = append-IsSoundAt h line

-- Behind a line that defines a snippet.
pub keep-IsSound :
    (skip : Bool) (s : Parsing) (line : Bytes)
    → IsSound s
    → IsSound (if skip then s else push_line s line)
keep-IsSound true s line h = h
keep-IsSound false s line h = push_line-IsSound s line h

pub length-push_section :
    (remaining : Bytes) (sections : List SectionHighlight)
    → length (push_section remaining sections) ≤ length sections + 1
unfolding push_section
length-push_section remaining sections = ground arith

pub call_out_line-IsSound :
    (s : Parsing) (line : Bytes) (m : Match)
    → InLine m (length line)
    → IsSound s
    → Holds IsSound (call_out_line s line m)
unfolding call_out_line push_line
call_out_line-IsSound s line m f h = Holds-bind IsSound (stoi (group m 1 2 line)) _ λ number _.
    append_called-IsSoundAt h line _ (mark_at-le m 0 (length line) f)
      (omega (arith, f.ordered, f.fits)) refl

pub start_unnamed-IsSound :
    (boost : Boost) (s : Parsing) (line : Bytes) (sections : List SectionHighlight)
    → length sections ≤ length s.section_highlight + 1
    → IsSound s
    → Holds IsSound (start_unnamed boost (record s { section_highlight = sections }) line)
unfolding start_unnamed push_line
start_unnamed-IsSound boost s line sections k h =
    append-IsSoundAt (open-IsSoundAt h (codes "unnamed") sections k) line

pub start_named-IsSound :
    (boost : Boost) (s : Parsing) (line remaining : Bytes) (sections : List SectionHighlight)
    → length sections ≤ length s.section_highlight + 1
    → (names : List (ℕ × ℕ)) → IsSound s
    → Holds IsSound
        (start_named boost (record s { section_highlight = sections }) line remaining names)
unfolding start_named push_line
start_named-IsSound boost s line remaining sections k [] h =
    start_unnamed-IsSound boost s line sections k h
start_named-IsSound boost s line remaining sections k ((a, b) ∷ names) h =
    let opened = open-IsSoundAt h (snippet_name_of boost (slice a b remaining)) sections k in
    elim (Bool-cases (ltb a b)) [
      | inl named ↦ rw named (
          Holds-bind IsSound (exclude_names remaining _ names _) _
            λ x _. keep-IsSound s.self.skip_snippet_definitions _ line opened)
      | inr empty ↦ rw empty (start_unnamed-IsSound boost s line sections k h)
    ]

pub start_line-IsSound :
    (boost : Boost) (s : Parsing) (line : Bytes) (m : Match)
    → IsSound s
    → Holds IsSound (start_line boost s line m)
unfolding start_line
start_line-IsSound boost s line m h =
    let remaining = boost.trim (drop m.second line) in
    start_named-IsSound boost s line remaining _ (length-push_section remaining s.section_highlight)
      (boost.split remaining) h

pub closed_snippets-All :
    (s : Parsing) (first : ℕ) (name : Bytes)
    → first ≤ s.line_number
    → s.line_number ≡ length s.self.file_contents
    → All (SnippetFits (length s.self.file_contents)) s.self.snippets
    → All (SnippetFits (length s.self.file_contents)) (closed_snippets s first name)
unfolding closed_snippets
closed_snippets-All s first name k c h = elim (Option-cases (lookup name s.self.snippets)) [
  | inl fresh ↦
      rw (fresh, closed_snippets)
        (emplace-All _ name _ s.self.snippets (refl, ((k, omega arith), tt)) h)
  | inr (old, known) ↦
      let (named, spans) = lookup-All _ name s.self.snippets h known in
      rw (known, closed_snippets)
        (assign-All _ name _ s.self.snippets
          (named, All-append _ old.line_spans _ spans ((k, omega arith), tt)) h)
]

pub close_snippet-IsSound :
    (stack : List (ℕ × Bytes)) (s : Parsing)
    → IsSound (record s { snippets = stack })
    → length s.section_highlight ≤ length stack - 1
    → IsSound (close_snippet stack (record s { snippets = stack }))
unfolding close_snippet
close_snippet-IsSound [] s h k = h
close_snippet-IsSound ((first, name) ∷ below) s h k = record {
  counted = h.counted;
  called = h.called;
  spanned = closed_snippets-All s first name h.opened.0 h.counted h.spanned;
  opened = h.opened.1;
  nested = omega arith;
}

pub length-pop : (sections : List SectionHighlight) → length (pop sections) ≡ length sections - 1
unfolding pop
length-pop [] = omega arith
length-pop (x ∷ xs) = omega arith

pub end_line-IsSound : (s : Parsing) (line : Bytes) → IsSound s → IsSound (end_line s line)
unfolding end_line
end_line-IsSound s line h = keep-IsSound _ _ line (
    close_snippet-IsSound s.snippets (record s { section_highlight = pop s.section_highlight })
      (record {
        counted = h.counted;
        called = h.called;
        spanned = h.spanned;
        opened = h.opened;
        nested = omega (arith, length-pop s.section_highlight, h.nested);
      })
      (omega (arith, length-pop s.section_highlight, h.nested)))
