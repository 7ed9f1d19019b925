-- ===== src/Extractor/Bounds/Whole.antt =====
-- extract/cppextractor.cc: the result of `parse` against the invariant of its loop.
use extractor.Base.{
  ◌≡◌, refl, Bool, Option, inl, inr, arith, Bytes, length, bytes_key, nat_key, Holds-ok,
  emplace-All, ok, Bool-cases, codes, ltb,
}
use extractor.Boost.{Boost}
use extractor.Extractor.{Extractor}
use extractor.Extractor.Parse.{Parsing, finish, parse, start_parsing}
use extractor.Extractor.Bounds.{IsStored, IsSound, IsSoundAt}
use extractor.Extractor.Induction.{Core, Keeps, parse_induction, IsFresh}
use extractor.Extractor.Bounds.Branches.{
  push_line-IsSound, call_out_line-IsSound, start_line-IsSound, end_line-IsSound,
}

abbrev SoundCore : Core → Type 0
SoundCore c = IsSoundAt c.line_number c.file_contents c.callouts c.stored c.stack c.sections

soundness : (boost : Boost) → Keeps boost SoundCore
soundness boost = record {
  pushes = push_line-IsSound;
  calls = call_out_line-IsSound;
  starts = start_line-IsSound boost;
  ends = end_line-IsSound;
}

start-IsSound : (e : Extractor) → IsFresh e → IsSound (start_parsing e)
start-IsSound e h = record {
  counted = rw h.no_lines;
  called = rw h.no_callouts tt;
  spanned = rw h.no_snippets tt;
  opened = tt;
  nested = omega arith;
}

finish-IsStored : (s : Parsing) → IsSound s → IsStored (finish s).0
unfolding finish
finish-IsStored s h = elim (Bool-cases (ltb 0 (length s.snippets))) [
  | inl unbalanced ↦ rw unbalanced (record { called = h.called; spanned = h.spanned })
  | inr balanced ↦ rw balanced (record {
    called = h.called;
    spanned =
        emplace-All _ (codes "all") _ s.self.snippets (refl, ((omega arith, omega arith), tt))
          h.spanned;
  })
]

abbrev ResultStored : Extractor × Bool → Type 0
ResultStored r = IsStored r.0

-- Whatever the file holds and however the extractor is set, when `parse` returns, each callout
-- stands under its line number, within the stored lines and with both columns within its line,
-- and each snippet stands under its name with each span in order and within the stored lines.
pub parse-IsStored :
    (boost : Boost) (files : Bytes → Option Bytes) (e : Extractor) {r : Extractor × Bool}
    → IsFresh e
    → parse boost files e ≡ ok r
    → IsStored r.0
parse-IsStored boost files e fresh h =
    Holds-ok ResultStored _
      (parse_induction boost SoundCore (soundness boost) ResultStored files e
        (record { called = rw fresh.no_callouts tt; spanned = rw fresh.no_snippets tt })
        (start-IsSound e fresh) finish-IsStored)
      h
