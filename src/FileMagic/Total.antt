-- ===== src/FileMagic/Total.antt =====
-- libwm/filemagic.cc: the loop over the parameters of a MIME type.
use extractor.Base.{
  ℕ, zero, suc, ◌-◌, ◌<◌, ◌≡◌, refl, Option, none, some, inl, inr, [], ◌∷◌, arith, Bytes, Dict,
  length, drop, assign, bytes_key, Option-cases,
}
use extractor.Regex.{search_regex, group}
use extractor.Regex.Groups.{search_groups, group_text, Groups}
use extractor.Regex.Bounds.{search_regex-InLine}
use extractor.Regex.Advance.{search_regex-ReadsByte}
use extractor.FileMagic.{
  MimeType, parameter_regex, mime_pattern, parameters_loop, mime_of, mime_parts, parse_mime,
}

length-drop : (n : ℕ) (xs : Bytes) → length (drop n xs) ≡ length xs - n
length-drop zero xs = omega arith
length-drop (suc n) [] = omega arith
length-drop (suc n) (x ∷ xs) = omega (arith, length-drop n xs)

-- Each round takes a byte away, so the loop ends.
parameters_loop-some :
    (fuel : ℕ) (text : Bytes) (ps : Dict Bytes Bytes)
    → length text < fuel
    → (qs : Dict Bytes Bytes) × (parameters_loop fuel text ps ≡ some qs)
unfolding parameters_loop parameter_regex
parameters_loop-some zero text ps enough = absurd (omega arith)
parameters_loop-some (suc fuel) text ps enough =
    elim (Option-cases (search_regex parameter_regex text)) [
      | inl nothing ↦ (ps, rw (nothing, parameters_loop) refl)
      | inr (m, found) ↦
          let forward = search_regex-ReadsByte parameter_regex tt text found in
          let inside = search_regex-InLine parameter_regex text found in
          let fits = inside.fits in
          let shorter = length-drop m.second text in
          let more = assign (group m 0 1 text) (group m 2 3 text) ps in
          let (qs, rest) = parameters_loop-some fuel (drop m.second text) more (omega arith) in
          (qs, rw (found, parameters_loop) rest)
    ]

-- The parts that the groups of a match name
abbrev pub parts : Bytes → Groups → Dict Bytes Bytes → MimeType
parts text gs ps = record {
  type = group_text 1 gs text;
  tree = group_text 3 gs text;
  sub_type = group_text 5 gs text;
  suffix = group_text 8 gs text;
  parameters = ps;
}

-- What the parser makes of a text where the pattern is found or not
abbrev pub ParsedAs : Bytes → Option (ℕ × Groups) → Type 0
ParsedAs text none = parse_mime text ≡ none
ParsedAs text (some (e, gs)) = (ps : Dict Bytes Bytes) × (parse_mime text ≡ some (parts text gs ps))

-- The parser finds a MIME type exactly where the pattern is found, whatever the list of parameters
-- is: the loop over it ends. The parts are those of the groups.
pub parse_mime-ParsedAs : (text : Bytes) → ParsedAs text (search_groups mime_pattern text)
unfolding parse_mime mime_of mime_parts
parse_mime-ParsedAs text = elim (Option-cases (search_groups mime_pattern text)) [
  | inl nothing ↦ rw nothing (rw (nothing, parse_mime) refl)
  | inr ((e, gs), found) ↦
      let list = group_text 9 gs text in
      let (ps, ended) = parameters_loop-some (suc (length list)) list [] (omega arith) in
      rw found (ps, rw (found, parse_mime) (rw ended refl))
]
