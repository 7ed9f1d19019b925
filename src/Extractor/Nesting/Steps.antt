-- ===== src/Extractor/Nesting/Steps.antt =====
-- extract/cppextractor.cc: the rounds of `parse` for the lines of nested snippets.
use extractor.Base.{
  ℕ, ◌+◌, ◌≡◌, refl, ap, ◌∙◌, Bool, true, false, List, [], ◌∷◌, ◌++◌, arith, Bytes, Dict, lookup,
  lookup_or, lookup-assign, and_false, insert_all, emplace, bytes_key, nat_key, ok, Option-cases,
  Bool-cases, inl, inr,
}
use extractor.Boost.{Boost}
use extractor.Extractor.Parse.{
  Parsing, normal, push_line, dispatch, block_or_text, omit_or_text, normal_line, next_line,
  start_line, start_named, push_section, exclude_names, end_line, close_snippet, close_top,
  closed_snippets, closed_texts, excludes_of, pop,
}
use extractor.Regex.{is_found}
use extractor.Extractor.Patterns.{highlight_section_include_regex, highlight_section_exclude_regex}
use extractor.Extractor.Nesting.{IsText, IsStart, IsEnd, add_span}

-- The state between the lines of a file that names no excludes and marks no sections
pub record IsCalm (lua : Bool) (s : Parsing) : Type 0 where
  pub language : s.self.lua ≡ lua
  pub skips : s.self.skip_snippet_definitions ≡ true
  pub no_comment : s.status ≡ normal
  pub no_sections : s.section_highlight ≡ []
  pub no_excludes : s.excludes ≡ []
  pub no_texts : (name : Bytes) → lookup_or name [] s.exclude_texts ≡ []

module _ (boost : Boost) (lua : Bool) (s : Parsing) (calm : IsCalm lua s) where
  -- A text line, and the lines that are to be stored
  abbrev pub with_line : Bytes → Parsing
  with_line line = record s {
    self = record s.self { file_contents = s.self.file_contents ++ line ∷ [] };
    line_number = s.line_number + 1;
    file_line_number = s.file_line_number + 1;
  }

  pub next_line_text :
      (line : Bytes) → IsText lua line → next_line boost s line ≡ ok (with_line line)
  unfolding next_line normal_line omit_or_text block_or_text dispatch push_line
  next_line_text line t = ground (
    arith,
    calm.language,
    calm.no_comment,
    calm.no_sections,
    t.some_char,
    t.no_highlight,
    t.no_omit,
    t.no_block,
    t.no_call_out,
    t.no_start,
    t.no_end,
    and_false s.self.skip_empty_lines,
    and_false s.self.skip_block_comments,
    and_false s.self.highlight_lines,
  )

  next_line_started :
      (line name : Bytes) (h : IsStart boost lua line name)
      → next_line boost s line
        ≡ start_line boost (record s { file_line_number = s.file_line_number + 1 }) line h.found_at
  unfolding next_line normal_line omit_or_text block_or_text dispatch
  next_line_started line name h = ground (
    arith,
    calm.language,
    calm.no_comment,
    h.some_char,
    h.no_highlight,
    h.no_omit,
    h.no_block,
    h.no_call_out,
    h.starts,
    and_false s.self.skip_empty_lines,
    and_false s.self.skip_block_comments,
  )

  push_section_none :
      (remaining : Bytes)
      → is_found highlight_section_include_regex remaining ≡ false
      → is_found highlight_section_exclude_regex remaining ≡ false
      → push_section remaining s.section_highlight ≡ s.section_highlight
  unfolding push_section
  push_section_none remaining no_include no_exclude =
      rw (no_include, no_exclude, calm.no_sections) refl

  -- A line that starts a snippet puts it on the stack.
  abbrev pub with_open : Bytes → Parsing
  with_open name = record s {
    snippets = (s.line_number, name) ∷ s.snippets;
    file_line_number = s.file_line_number + 1;
  }

  pub next_line_start :
      (line name : Bytes)
      → IsStart boost lua line name
      → next_line boost s line ≡ ok (with_open name)
  unfolding start_line start_named exclude_names
  next_line_start line name h =
      next_line_started line name h
      ∙ rw
          (h.names, push_section_none _ h.no_include h.no_exclude, h.some_name, h.named, calm.skips)
          refl

  abbrev pub before_end : Parsing
  before_end = record s { file_line_number = s.file_line_number + 1 }

  next_line_ended :
      (line : Bytes) → IsEnd lua line → next_line boost s line ≡ ok (end_line before_end line)
  unfolding next_line normal_line omit_or_text block_or_text dispatch
  next_line_ended line h = ground (
    arith,
    calm.language,
    calm.no_comment,
    h.some_char,
    h.no_highlight,
    h.no_omit,
    h.no_block,
    h.no_call_out,
    h.no_start,
    h.ends,
    and_false s.self.skip_empty_lines,
    and_false s.self.skip_block_comments,
  )

  pop_none : pop s.section_highlight ≡ []
  unfolding pop
  pop_none = rw calm.no_sections refl

  excludes_none : (name : Bytes) → excludes_of name s ≡ []
  unfolding excludes_of lookup_or lookup
  excludes_none name = rw calm.no_excludes refl

  closed_span :
      (first : ℕ) (name : Bytes)
      → closed_snippets s first name ≡ add_span (name, first, s.line_number) s.self.snippets
  unfolding closed_snippets add_span insert_all
  closed_span first name = elim (Option-cases (lookup name s.self.snippets)) [
    | inl absent ↦
        rw (absent, closed_snippets, add_span) (rw (excludes_none name, calm.no_texts name) refl)
    | inr (old, present) ↦
        rw (present, closed_snippets, add_span) (rw (excludes_none old.name) refl)
  ]

lookup_or-emplace :
    (k n : Bytes) (m : Dict Bytes Bytes)
    → ((j : Bytes) → lookup_or j [] m ≡ [])
    → lookup_or n [] (emplace k [] m) ≡ []
unfolding lookup_or emplace
lookup_or-emplace k n m h = elim (Option-cases (lookup k m)) [
  | inr (v, present) ↦ rw (present, emplace) (h n)
  | inl absent ↦
      let found_again = lookup-assign k n [] m in
      let before = h n in
      elim (Bool-cases (bytes_key.beq k n)) [
        | inl same ↦ rw (absent, emplace) (rw (found_again, lookup_or) (rw same refl))
        | inr other ↦ rw (absent, emplace) (rw (found_again, lookup_or) (rw other before))
      ]
]

-- The state behind the end of the snippet on top of the stack
abbrev pub with_closed : ℕ → Bytes → List (ℕ × Bytes) → Parsing → Parsing
with_closed first name below s = record s {
  self = record s.self { snippets = add_span (name, first, s.line_number) s.self.snippets };
  snippets = below;
  exclude_texts = closed_texts s name;
  section_highlight = [];
  file_line_number = s.file_line_number + 1;
}

pub closed_texts_none :
    (lua : Bool) (s : Parsing) (name n : Bytes)
    → IsCalm lua s
    → lookup_or n [] (closed_texts s name) ≡ []
unfolding closed_texts
closed_texts_none lua s name n calm = elim (Option-cases (lookup name s.self.snippets)) [
  | inl absent ↦ rw (absent, closed_texts) (lookup_or-emplace name n s.exclude_texts calm.no_texts)
  | inr (old, present) ↦ rw (present, closed_texts) (calm.no_texts n)
]

close_top_calm :
    (boost : Boost) (lua : Bool) (s : Parsing) (first : ℕ) (name : Bytes)
    → IsCalm lua s
    → close_top s first name ≡ record s {
      self = record s.self { snippets = add_span (name, first, s.line_number) s.self.snippets };
      exclude_texts = closed_texts s name;
    }
unfolding close_top
close_top_calm boost lua s first name calm = rw (closed_span boost lua s calm first name) refl

close_snippet_calm :
    (boost : Boost) (lua : Bool) (s : Parsing) (first : ℕ) (name : Bytes) (below : List (ℕ × Bytes))
    → IsCalm lua s
    → close_snippet ((first, name) ∷ below) s ≡ record (with_closed first name below s) {
      section_highlight = s.section_highlight;
      file_line_number = s.file_line_number;
    }
unfolding close_snippet
close_snippet_calm boost lua s first name below calm =
    ap {A = Parsing} {B = Parsing} (λ t. record t { snippets = below })
      (close_top_calm boost lua s first name calm)

end_line_rule :
    (s t : Parsing) (line : Bytes)
    → close_snippet s.snippets (record s { section_highlight = pop s.section_highlight }) ≡ t
    → t.self.skip_snippet_definitions ≡ true
    → end_line s line ≡ t
unfolding end_line
end_line_rule s t line closed skips = rw (closed, skips) refl

end_line_closed :
    (boost : Boost) (lua : Bool) (s : Parsing) (first : ℕ) (name line : Bytes)
    (below : List (ℕ × Bytes))
    → IsCalm lua s
    → s.snippets ≡ (first, name) ∷ below
    → end_line s line
      ≡ record (with_closed first name below s) { file_line_number = s.file_line_number }
unfolding closed_texts
end_line_closed boost lua s first name line below calm top =
    let s1 : Parsing = record s { section_highlight = []; snippets = (first, name) ∷ below } in
    let calm1 : IsCalm lua s1 = record {
      language = calm.language;
      skips = calm.skips;
      no_comment = calm.no_comment;
      no_sections = refl;
      no_excludes = calm.no_excludes;
      no_texts = calm.no_texts;
    } in
    end_line_rule s _ line
      (rw (pop_none boost lua s calm, top) (close_snippet_calm boost lua s1 first name below calm1))
      calm.skips

pub next_line_end :
    (boost : Boost) (lua : Bool) (s : Parsing) (first : ℕ) (name line : Bytes)
    (below : List (ℕ × Bytes))
    → IsCalm lua s
    → IsEnd lua line
    → s.snippets ≡ (first, name) ∷ below
    → next_line boost s line ≡ ok (with_closed first name below s)
unfolding closed_texts
next_line_end boost lua s first name line below calm h top =
    let s1 = before_end boost lua s calm in
    let calm1 : IsCalm lua s1 = record {
      language = calm.language;
      skips = calm.skips;
      no_comment = calm.no_comment;
      no_sections = calm.no_sections;
      no_excludes = calm.no_excludes;
      no_texts = calm.no_texts;
    } in
    next_line_ended boost lua s calm line h
    ∙ rw (end_line_closed boost lua s1 first name line below calm1 top) refl
