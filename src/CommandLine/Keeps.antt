-- ===== src/CommandLine/Keeps.antt =====
-- extract/commandlineparser.cc: what `parse` makes of the declared options.
use extractor.Base.{
  ℕ, ◌≡◌, refl, ap, ◌∙◌, Bool, true, false, Option, some, inl, inr, List, [], ◌∷◌, map, Bytes, All,
  Bool-cases, Option-cases, if◌then◌else◌, ◌==◌, is_empty, Holds, Holds-imp, Holds-imp,
}
use extractor.CommandLine.{
  CommandLineOption, CommandLineParser, Step, done, wants, set, set_value, has_name, has_letter,
  find_option, write_option, long_option, short_result, short_option, parse_dashed, parse_arg,
  parse_args,
}
use extractor.CommandLine.Values.{
  Step-cases, parse_args-done, parse_args-wants, parse_args-last, parse_args-end,
}

-- What is declared of an option.
abbrev pub declared : CommandLineOption → List Bytes × Bool
declared o = (o.names, o.has_value)

pub record IsConsistent (o : CommandLineOption) : Type 0 where
  pub unset : o.has_value ≡ true → o.is_set ≡ false
  pub valueless : o.has_value ≡ false → o.value ≡ []

-- `new` stands in the place of `old`.
pub record Replaces (old new : CommandLineOption) : Type 0 where
  pub same : declared new ≡ declared old
  pub consistent : IsConsistent old → IsConsistent new

pub record Keeps (s t : CommandLineParser) : Type 0 where
  pub same : map declared t.options ≡ map declared s.options
  pub consistent : All IsConsistent s.options → All IsConsistent t.options

unchanged : {s t : CommandLineParser} → t.options ≡ s.options → Keeps s t
unchanged e = record { same = ap (map declared) e; consistent = λ c. rw e c }

Keeps-trans : {s t u : CommandLineParser} → Keeps s t → Keeps t u → Keeps s u
Keeps-trans h k = record { same = k.same ∙ h.same; consistent = λ c. k.consistent (h.consistent c) }

set-Replaces : (value : Bool) (o : CommandLineOption) → Replaces o (set value o).0
unfolding set
set-Replaces value o = elim (Bool-cases o.has_value) [
  | inl valued ↦ rw (valued, set) (record { same = refl; consistent = λ c. c })
  | inr plain ↦
      rw (plain, set)
        (record {
          same = refl;
          consistent = λ c. record { unset = λ e. cc; valueless = c.valueless };
        })
]

set_value-Replaces : (value : Bytes) (o : CommandLineOption) → Replaces o (set_value value o).0
unfolding set_value
set_value-Replaces value o = elim (Bool-cases o.has_value) [
  | inl valued ↦
      rw (valued, set_value)
        (record { same = refl; consistent = λ c. record { unset = c.unset; valueless = λ e. cc } })
  | inr plain ↦ rw (plain, set_value) (record { same = refl; consistent = λ c. c })
]

module _ (p : CommandLineOption → Bool) (o new : CommandLineOption) (r : Replaces o new) where
  found_option :
      (x : CommandLineOption) (os : List CommandLineOption)
      → p x ≡ true
      → find_option p (x ∷ os) ≡ some o
      → x ≡ o
  unfolding find_option
  found_option x os found hit =
      let here : ◌≡◌ {A = Option CommandLineOption} (some x) (some o) = rw found at hit in cc

  write_option-declared :
      (os : List CommandLineOption)
      → find_option p os ≡ some o
      → map declared (write_option p new os) ≡ map declared os
  unfolding find_option write_option
  write_option-declared [] hit = refl
  write_option-declared (x ∷ os) hit = elim (Bool-cases (p x)) [
    | inl found ↦
        let same : x ≡ o = found_option x os found hit in
        rw (found, write_option, r.same, same) refl
    | inr other ↦
        rw (other, write_option)
          (ap (λ ds. declared x ∷ ds) (write_option-declared os (rw other at hit)))
  ]

  write_option-IsConsistent :
      (os : List CommandLineOption)
      → find_option p os ≡ some o
      → All IsConsistent os
      → All IsConsistent (write_option p new os)
  unfolding find_option write_option
  write_option-IsConsistent [] hit c = tt
  write_option-IsConsistent (x ∷ os) hit (cx, cs) = elim (Bool-cases (p x)) [
    | inl found ↦
        let same : x ≡ o = found_option x os found hit in
        rw (found, write_option) (r.consistent (rw same at cx), cs)
    | inr other ↦ rw (other, write_option) (cx, write_option-IsConsistent os (rw other at hit) cs)
  ]

  write_option-Keeps :
      (s : CommandLineParser)
      → find_option p s.options ≡ some o
      → Keeps s (record s { options = write_option p new s.options })
  write_option-Keeps s hit = record {
    same = write_option-declared s.options hit;
    consistent = write_option-IsConsistent s.options hit;
  }

-- A step keeps the options, whatever value it is given.
abbrev pub KeptBy : CommandLineParser → Step → Type 0
KeptBy s (done t) = Keeps s t
KeptBy s (wants f) = (value : Bytes) → Keeps s (f value)

KeptBy-if :
    (s : CommandLineParser) (b : Bool) (x y : Step)
    → KeptBy s x
    → KeptBy s y
    → KeptBy s (if b then x else y)
KeptBy-if s true x y hx hy = hx
KeptBy-if s false x y hx hy = hy

long_option-Keeps : (name : Bytes) (s : CommandLineParser) → KeptBy s (long_option name s)
unfolding long_option
long_option-Keeps name s = elim (Option-cases (find_option (has_name name) s.options)) [
  | inl unknown ↦ rw (unknown, long_option) (unchanged refl)
  | inr (o, hit) ↦
      rw (hit, long_option)
        (KeptBy-if s o.has_value _ _
          (λ value. write_option-Keeps (has_name name) o _ (set_value-Replaces value o) s hit)
          (write_option-Keeps (has_name name) o _ (set-Replaces true o) s hit))
]

short_result-Keeps :
    (letter : ℕ) (o : CommandLineOption) (r : CommandLineOption × Bool) (s : CommandLineParser)
    → find_option (has_letter letter) s.options ≡ some o
    → Replaces o r.0
    → Keeps s (short_result letter o r s)
unfolding short_result
short_result-Keeps letter o (o', true) s hit r = write_option-Keeps (has_letter letter) o o' r s hit
short_result-Keeps letter o (o', false) s hit r = (unchanged refl)

short_option-Keeps :
    (letter : ℕ) (rest : Bytes) (s : CommandLineParser) → Keeps s (short_option letter rest s)
unfolding short_option
short_option-Keeps letter rest s = elim (Option-cases (find_option (has_letter letter) s.options)) [
  | inl unknown ↦ rw (unknown, short_option) (unchanged refl)
  | inr (o, hit) ↦ elim (Bool-cases (is_empty rest)) [
    | inl flag ↦
        rw (hit, short_option, flag) (short_result-Keeps letter o _ s hit (set-Replaces true o))
    | inr valued ↦
        rw (hit, short_option, valued)
          (short_result-Keeps letter o _ s hit (set_value-Replaces rest o))
  ]
]

parse_dashed-Keeps : (text : Bytes) (s : CommandLineParser) → KeptBy s (parse_dashed text s)
unfolding parse_dashed
parse_dashed-Keeps [] s = (unchanged refl)
parse_dashed-Keeps (c ∷ rest) s = elim (Bool-cases (c == b'-')) [
  | inl dash ↦ rw (dash, parse_dashed) (long_option-Keeps rest s)
  | inr letter ↦ rw (letter, parse_dashed) (short_option-Keeps c rest s)
]

pub parse_arg-Keeps : (arg : Bytes) (s : CommandLineParser) → KeptBy s (parse_arg arg s)
unfolding parse_arg parse_dashed
parse_arg-Keeps [] s = (unchanged refl)
parse_arg-Keeps (c ∷ rest) s = elim (Bool-cases (c == b'-')) [
  | inl dash ↦ rw (dash, parse_arg) (parse_dashed-Keeps rest s)
  | inr word ↦ rw (word, parse_arg) (unchanged refl)
]

-- Whatever the arguments are, the options that are returned are the declared ones, in their order
-- and with their kinds.
pub parse_args-Keeps :
    (args : List Bytes) (s : CommandLineParser) → Holds (Keeps s) (parse_args args s)
parse_args-Keeps [] s = rw (parse_args-end s) (unchanged refl)
parse_args-Keeps (arg ∷ []) s = elim (Step-cases arg s) [
  | inl (t, hit) ↦
      rw (parse_args-done arg s [] hit, parse_args-end) (rw hit at (parse_arg-Keeps arg s))
  | inr (f, hit) ↦ rw (parse_args-last arg s hit) tt
]
parse_args-Keeps (arg ∷ next ∷ args) s = elim (Step-cases arg s) [
  | inl (t, hit) ↦
      let step : Keeps s t = rw hit at (parse_arg-Keeps arg s) in
      rw (parse_args-done arg s (next ∷ args) hit)
        (Holds-imp _ _ (λ u. Keeps-trans step) _ (parse_args-Keeps (next ∷ args) t))
  | inr (f, hit) ↦
      let step : KeptBy s (wants f) = rw hit at (parse_arg-Keeps arg s) in
      rw (parse_args-wants arg s next args hit)
        (Holds-imp _ _ (λ u. Keeps-trans (step next)) _ (parse_args-Keeps args (f next)))
]
