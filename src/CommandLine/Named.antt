-- ===== src/CommandLine/Named.antt =====
-- extract/commandlineparser.cc: the options that the parser reports as invalid.
use extractor.Base.{
  ℕ, ◌≡◌, ◌≢◌, refl, Bool, true, false, some, inl, inr, List, [], ◌∷◌, Bytes, All, All-append,
  Bool-cases, Option-cases, if◌then◌else◌, ◌==◌, Holds,
}
use extractor.CommandLine.{
  CommandLineOption, CommandLineParser, Step, done, wants, has_name, has_letter, find_option,
  new_option, long_option, short_result, short_option, parse_dashed, parse_arg, parse_args, invalid,
}
use extractor.CommandLine.Values.{
  Step-cases, parse_args-done, parse_args-wants, parse_args-last, parse_args-end,
}

abbrev pub IsNamed : CommandLineOption → Type 0
IsNamed o = o.names ≢ []

abbrev pub AllNamed : CommandLineParser → Type 0
AllNamed s = All IsNamed s.invalid_options

abbrev NamedBy : Step → Type 0
NamedBy (done t) = AllNamed t
NamedBy (wants f) = (value : Bytes) → AllNamed (f value)

NamedBy-if : (b : Bool) (x y : Step) → NamedBy x → NamedBy y → NamedBy (if b then x else y)
NamedBy-if true x y hx hy = hx
NamedBy-if false x y hx hy = hy

invalid-AllNamed :
    (o : CommandLineOption) (s : CommandLineParser)
    → IsNamed o
    → AllNamed s
    → AllNamed (invalid o s)
invalid-AllNamed o s named h = All-append IsNamed s.invalid_options (o ∷ []) h (named, tt)

find_option-found :
    (p : CommandLineOption → Bool) (os : List CommandLineOption) {o : CommandLineOption}
    → find_option p os ≡ some o
    → p o ≡ true
unfolding find_option
find_option-found p [] hit = cc
find_option-found p (x ∷ os) hit = elim (Bool-cases (p x)) [
  | inl found ↦ (let here = rw found at hit in cc)
  | inr other ↦ find_option-found p os (rw other at hit)
]

letter-IsNamed :
    (letter : ℕ) (names : List Bytes) (o : CommandLineOption)
    → o.names ≡ names
    → has_letter letter o ≡ true
    → IsNamed o
unfolding has_letter
letter-IsNamed letter [] o e h = absurd (let none = rw e at h in cc)
letter-IsNamed letter (n ∷ ns) o e h = λ empty. cc

long_option-NamedBy :
    (name : Bytes) (s : CommandLineParser) → AllNamed s → NamedBy (long_option name s)
unfolding long_option
long_option-NamedBy name s h = elim (Option-cases (find_option (has_name name) s.options)) [
  | inl unknown ↦
      rw (unknown, long_option) (invalid-AllNamed (new_option (name ∷ []) false) s (λ e. cc) h)
  | inr (o, hit) ↦ rw (hit, long_option) (NamedBy-if o.has_value _ _ (λ value. h) h)
]

short_result-AllNamed :
    (letter : ℕ) (o : CommandLineOption) (r : CommandLineOption × Bool) (s : CommandLineParser)
    → IsNamed o
    → AllNamed s
    → AllNamed (short_result letter o r s)
unfolding short_result
short_result-AllNamed letter o (o', true) s named h = h
short_result-AllNamed letter o (o', false) s named h = invalid-AllNamed o s named h

short_option-AllNamed :
    (letter : ℕ) (rest : Bytes) (s : CommandLineParser)
    → AllNamed s
    → AllNamed (short_option letter rest s)
unfolding short_option
short_option-AllNamed letter rest s h =
    elim (Option-cases (find_option (has_letter letter) s.options)) [
      | inl unknown ↦
          rw (unknown, short_option)
            (invalid-AllNamed (new_option ((letter ∷ []) ∷ []) false) s (λ e. cc) h)
      | inr (o, hit) ↦
          rw (hit, short_option)
            (short_result-AllNamed letter o _ s
              (letter-IsNamed letter o.names o refl
                (find_option-found (has_letter letter) s.options hit))
              h)
    ]

parse_dashed-NamedBy :
    (text : Bytes) (s : CommandLineParser) → AllNamed s → NamedBy (parse_dashed text s)
unfolding parse_dashed
parse_dashed-NamedBy [] s h = h
parse_dashed-NamedBy (c ∷ rest) s h = elim (Bool-cases (c == b'-')) [
  | inl dash ↦ rw (dash, parse_dashed) (long_option-NamedBy rest s h)
  | inr letter ↦ rw (letter, parse_dashed) (short_option-AllNamed c rest s h)
]

parse_arg-NamedBy : (arg : Bytes) (s : CommandLineParser) → AllNamed s → NamedBy (parse_arg arg s)
unfolding parse_arg parse_dashed
parse_arg-NamedBy [] s h = h
parse_arg-NamedBy (c ∷ rest) s h = elim (Bool-cases (c == b'-')) [
  | inl dash ↦ rw (dash, parse_arg) (parse_dashed-NamedBy rest s h)
  | inr word ↦ rw (word, parse_arg) h
]

pub parse_args-AllNamed :
    (args : List Bytes) (s : CommandLineParser) → AllNamed s → Holds AllNamed (parse_args args s)
parse_args-AllNamed [] s h = rw (parse_args-end s) h
parse_args-AllNamed (arg ∷ []) s h = elim (Step-cases arg s) [
  | inl (t, hit) ↦
      rw (parse_args-done arg s [] hit, parse_args-end) (rw hit at (parse_arg-NamedBy arg s h))
  | inr (f, hit) ↦ rw (parse_args-last arg s hit) tt
]
parse_args-AllNamed (arg ∷ next ∷ args) s h = elim (Step-cases arg s) [
  | inl (t, hit) ↦
      let step : AllNamed t = rw hit at (parse_arg-NamedBy arg s h) in
      rw (parse_args-done arg s (next ∷ args) hit) (parse_args-AllNamed (next ∷ args) t step)
  | inr (f, hit) ↦
      let step : NamedBy (wants f) = rw hit at (parse_arg-NamedBy arg s h) in
      rw (parse_args-wants arg s next args hit) (parse_args-AllNamed args (f next) (step next))
]
