-- ===== src/Extractor/Sections.antt =====
-- The stack `sectionHighlight` of `parse`, against the nesting of the snippets that it stands for.
use extractor.Base.{
  ℕ, ◌==◌, is_space, ◌≡◌, refl, ap, ◌∙◌, Bool, true, false, Option, none, some, List, [], ◌∷◌,
  arith, Bytes, if◌then◌else◌,
}
use extractor.Regex.{is_found}
use extractor.Regex.Triples.{holds_three, is_found-triple}
use extractor.Extractor.Patterns.{highlight_section_include_regex, highlight_section_exclude_regex}
use extractor.Extractor.Parse.{
  SectionHighlight, included, excluded, push_section, pop, tops_included,
}

-- What a file does to the nesting: a snippet starts, with the rest of its line, or one ends.
pub data Nesting : Type 0 where
  starts : Bytes → Nesting
  ends : Nesting

-- The stack after the starts and ends of a file, the last one first.
pub sections_after : List Nesting → List SectionHighlight
unfolding push_section pop
sections_after [] = []
sections_after (starts remaining ∷ before) = push_section remaining (sections_after before)
sections_after (ends ∷ before) = pop (sections_after before)

-- A mark in a text: a sign and a star, right behind a blank
abbrev pub has_mark : ℕ → Bytes → Bool
has_mark sign = holds_three is_space (λ x. x == sign) (λ x. x == b'*')

-- The highlighting that the line of a snippet itself asks for
abbrev pub own_highlight : Bytes → Option SectionHighlight
own_highlight remaining =
    if has_mark b'+' remaining
    then some included
    else if has_mark b'-' remaining
    then some excluded
    else none

include_mark :
    (remaining : Bytes)
    → is_found highlight_section_include_regex remaining ≡ has_mark b'+' remaining
unfolding highlight_section_include_regex
include_mark remaining = is_found-triple is_space (λ x. x == b'+') (λ x. x == b'*') remaining

exclude_mark :
    (remaining : Bytes)
    → is_found highlight_section_exclude_regex remaining ≡ has_mark b'-' remaining
unfolding highlight_section_exclude_regex
exclude_mark remaining = is_found-triple is_space (λ x. x == b'-') (λ x. x == b'*') remaining

abbrev pub without_first {ℓ} : {A : Type ℓ} → List A → List A
without_first [] = []
without_first (x ∷ xs) = xs

-- The open snippets, the innermost first, each with what its own line asks for.
abbrev pub open_after : List Nesting → List (Option SectionHighlight)
open_after [] = []
open_after (starts remaining ∷ before) = own_highlight remaining ∷ open_after before
open_after (ends ∷ before) = without_first (open_after before)

-- The innermost open snippet that asks for anything asks for highlighting.
abbrev pub innermost_included : List (Option SectionHighlight) → Bool
innermost_included [] = false
innermost_included (none ∷ outer) = innermost_included outer
innermost_included (some included ∷ outer) = true
innermost_included (some excluded ∷ outer) = false

-- The stack that belongs to the open snippets: a snippet that asks for nothing repeats the entry
-- around it, and has none where there is none.
inherited : List (Option SectionHighlight) → List SectionHighlight
inherited [] = []
inherited (some h ∷ outer) = h ∷ inherited outer
inherited (none ∷ outer) = elim (inherited outer) [ [] ↦ [] | h ∷ hs ↦ h ∷ h ∷ hs ]

push_section-inherited :
    (remaining : Bytes) (outer : List (Option SectionHighlight))
    → push_section remaining (inherited outer) ≡ inherited (own_highlight remaining ∷ outer)
unfolding push_section inherited
push_section-inherited remaining outer =
    ground (arith, include_mark remaining, exclude_mark remaining)

pop-inherited :
    (opened : List (Option SectionHighlight))
    → pop (inherited opened) ≡ inherited (without_first opened)
unfolding pop inherited
pop-inherited [] = refl
pop-inherited (some h ∷ outer) = refl
pop-inherited (none ∷ outer) = ground arith

sections_after-inherited :
    (events : List Nesting) → sections_after events ≡ inherited (open_after events)
unfolding sections_after inherited
sections_after-inherited [] = refl
sections_after-inherited (starts remaining ∷ before) =
    ap (push_section remaining) (sections_after-inherited before)
    ∙ push_section-inherited remaining (open_after before)
sections_after-inherited (ends ∷ before) =
    ap pop (sections_after-inherited before) ∙ pop-inherited (open_after before)

tops_included-inherited :
    (opened : List (Option SectionHighlight))
    → tops_included (inherited opened) ≡ innermost_included opened
unfolding tops_included inherited
tops_included-inherited [] = refl
tops_included-inherited (some included ∷ outer) = refl
tops_included-inherited (some excluded ∷ outer) = refl
tops_included-inherited (none ∷ outer) = ground (arith, tops_included-inherited outer)

-- After any sequence of starts and ends of snippets, unmatched ends included, the test on the
-- stack that highlights a line tells whether the innermost open snippet with a mark of its own is
-- marked `+*`: a snippet without a mark inherits, one marked `-*` switches off. A mark stands
-- right behind a blank: `+*` or `-*` at the start of the trimmed rest of the line is none.
pub tops_included-sections_after :
    (events : List Nesting)
    → tops_included (sections_after events) ≡ innermost_included (open_after events)
tops_included-sections_after events =
    ap tops_included (sections_after-inherited events) ∙ tops_included-inherited (open_after events)
