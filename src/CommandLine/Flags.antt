-- ===== src/CommandLine/Flags.antt =====
-- extract/commandlineparser.cc: `parse` where no option takes a value.
use extractor.Base.{
  ℕ, ◌≡◌, refl, sym, ap, ◌∙◌, Bool, true, false, not, Option, some, inl, inr, List, [], ◌∷◌, ◌++◌,
  map, Bytes, All, Bool-cases, Option-cases, if◌then◌else◌, append_assoc, append-nil, Returns, ◌==◌,
}
use extractor.CommandLine.{
  CommandLineOption, CommandLineParser, Step, done, wants, has_name, has_letter, find_option,
  long_option, short_result, short_option, parse_dashed, parse_arg, parse_args,
}
use extractor.CommandLine.Values.{parse_args-done, parse_args-end}
use extractor.CommandLine.Keeps.{declared, Keeps, parse_arg-Keeps}

-- The arguments that are no options: not empty and without a dash at the start.
abbrev pub is_positional : Bytes → Bool
is_positional [] = false
is_positional (c ∷ rest) = not (c == b'-')

unfoldable pub words : List Bytes → List Bytes
words [] = []
words (arg ∷ args) = let rest = words args in if is_positional arg then arg ∷ rest else rest

abbrev pub IsFlag : List Bytes × Bool → Type 0
IsFlag d = d.1 ≡ false

-- No option takes a value.
abbrev pub AllFlags : CommandLineParser → Type 0
AllFlags s = All IsFlag (map declared s.options)

find_option-IsFlag :
    (p : CommandLineOption → Bool) (o : CommandLineOption) (os : List CommandLineOption)
    → find_option p os ≡ some o
    → All IsFlag (map declared os)
    → o.has_value ≡ false
unfolding find_option
find_option-IsFlag p o [] hit h = cc
find_option-IsFlag p o (x ∷ os) hit (hx, hs) = elim (Bool-cases (p x)) [
  | inl found ↦
      let here : ◌≡◌ {A = Option CommandLineOption} (some x) (some o) = rw found at hit in
      let same : x ≡ o = cc in rw same at hx
  | inr other ↦ find_option-IsFlag p o os (rw other at hit) hs
]

-- An argument is done with by itself.
abbrev pub DoneWith : List Bytes → Step → Type 0
DoneWith ps (done t) = t.positionals ≡ ps
DoneWith ps (wants f) = ⊥

DoneWith-done :
    (ps : List Bytes) (r : Step)
    → DoneWith ps r
    → (t : CommandLineParser) × (r ≡ done t) × (t.positionals ≡ ps)
DoneWith-done ps (done t) h = (t, refl, h)
DoneWith-done ps (wants f) h = elim h [ ]

module _ (s : CommandLineParser) (flags : AllFlags s) where
  long_option-DoneWith : (name : Bytes) → DoneWith s.positionals (long_option name s)
  unfolding long_option
  long_option-DoneWith name = elim (Option-cases (find_option (has_name name) s.options)) [
    | inl unknown ↦ rw (unknown, long_option) refl
    | inr (o, hit) ↦
        rw (hit, long_option, find_option-IsFlag (has_name name) o s.options hit flags) refl
  ]

  short_result-positionals :
      (letter : ℕ) (o : CommandLineOption) (r : CommandLineOption × Bool)
      → (short_result letter o r s).positionals ≡ s.positionals
  unfolding short_result
  short_result-positionals letter o (o', true) = refl
  short_result-positionals letter o (o', false) = refl

  short_option-positionals :
      (letter : ℕ) (rest : Bytes) → (short_option letter rest s).positionals ≡ s.positionals
  unfolding short_option
  short_option-positionals letter rest =
      elim (Option-cases (find_option (has_letter letter) s.options)) [
        | inl unknown ↦ rw (unknown, short_option) refl
        | inr (o, hit) ↦ rw (hit, short_option) (short_result-positionals letter o _)
      ]

  parse_dashed-DoneWith : (text : Bytes) → DoneWith s.positionals (parse_dashed text s)
  unfolding parse_dashed
  parse_dashed-DoneWith [] = refl
  parse_dashed-DoneWith (c ∷ rest) = elim (Bool-cases (c == b'-')) [
    | inl dash ↦ rw (dash, parse_dashed) (long_option-DoneWith rest)
    | inr letter ↦ rw (letter, parse_dashed) (short_option-positionals c rest)
  ]

  parse_arg-DoneWith :
      (arg : Bytes) → DoneWith (s.positionals ++ words (arg ∷ [])) (parse_arg arg s)
  unfolding parse_arg words
  parse_arg-DoneWith [] = sym (append-nil s.positionals)
  parse_arg-DoneWith (c ∷ rest) = elim (Bool-cases (c == b'-')) [
    | inl dash ↦ rw (dash, parse_arg, append-nil s.positionals) (parse_dashed-DoneWith rest)
    | inr word ↦ rw (word, parse_arg) refl
  ]

words-cons : (arg : Bytes) (args : List Bytes) → words (arg ∷ args) ≡ words (arg ∷ []) ++ words args
unfolding words
words-cons arg args = elim (Bool-cases (is_positional arg)) [
  | inl word ↦ rw (word, words) refl
  | inr other ↦ rw (other, words) refl
]

-- With flags only, parsing returns whatever the arguments are, and adds the words among them to
-- the positionals, in their order.
pub parse_args-words :
    (args : List Bytes) (s : CommandLineParser)
    → AllFlags s
    → Returns (λ t. t.positionals ≡ s.positionals ++ words args) (parse_args args s)
unfolding words
parse_args-words [] s flags = rw (parse_args-end s) (sym (append-nil s.positionals))
parse_args-words (arg ∷ args) s flags =
    let (t, hit, ps) = DoneWith-done _ _ (parse_arg-DoneWith s flags arg) in
    let kept : Keeps s t = rw hit at (parse_arg-Keeps arg s) in
    let rest = parse_args-words args t (rw kept.same flags) in
    let joined : t.positionals ++ words args ≡ s.positionals ++ words (arg ∷ args) =
      ap (λ p. p ++ words args) ps
      ∙ append_assoc s.positionals (words (arg ∷ [])) (words args)
      ∙ ap (λ w. s.positionals ++ w) (sym (words-cons arg args)) in
    rw (parse_args-done arg s args hit, ← joined) rest
