-- ===== src/CommandLine/Values.antt =====
-- extract/commandlineparser.cc: `parse` one argument after the other, and options with values.
use extractor.Base.{
  ◌≡◌, ◌⊎◌, refl, sym, ap, ◌∙◌, ok-injective, true, Option, some, inl, inr, List, [], ◌∷◌, ◌++◌,
  Bytes, ok, fault, undefined, Returns, Bool-cases,
}
use extractor.CommandLine.{
  CommandLineOption, CommandLineParser, done, wants, set_value, has_name, find_option, write_option,
  option, long_option, parse_dashed, parse_arg, parse_args,
}

module _ (arg : Bytes) (s : CommandLineParser) where
  pub Step-cases :
      ((t : CommandLineParser) × parse_arg arg s ≡ done t)
      ⊎ ((f : Bytes → CommandLineParser) × parse_arg arg s ≡ wants f)
  Step-cases =
      elim (parse_arg arg s)
        as (λ r.
          ((t : CommandLineParser) × r ≡ done t)
          ⊎ ((f : Bytes → CommandLineParser) × r ≡ wants f)) [
            | done t ↦ inl (t, refl)
            | wants f ↦ inr (f, refl)
          ]

  pub parse_args-done :
      (args : List Bytes) {t : CommandLineParser}
      → parse_arg arg s ≡ done t
      → parse_args (arg ∷ args) s ≡ parse_args args t
  unfolding parse_args
  parse_args-done [] h = rw (h, parse_args) refl
  parse_args-done (next ∷ args) h = rw (h, parse_args) refl

  pub parse_args-wants :
      (value : Bytes) (args : List Bytes) {f : Bytes → CommandLineParser}
      → parse_arg arg s ≡ wants f
      → parse_args (arg ∷ value ∷ args) s ≡ parse_args args (f value)
  unfolding parse_args
  parse_args-wants value args h = rw (h, parse_args) refl

  pub parse_args-last :
      {f : Bytes → CommandLineParser}
      → parse_arg arg s ≡ wants f
      → parse_args (arg ∷ []) s ≡ fault undefined
  unfolding parse_args
  parse_args-last h = rw (h, parse_args) refl

parse_args-nil : (s : CommandLineParser) {t : CommandLineParser} → parse_args [] s ≡ ok t → s ≡ t
unfolding parse_args
parse_args-nil s h = ok-injective h

pub parse_args-end : (s : CommandLineParser) → parse_args [] s ≡ ok s
unfolding parse_args
parse_args-end s = refl

-- What was parsed before counts as the start of what comes after.
pub parse_args-append :
    (xs ys : List Bytes) (s : CommandLineParser) {t : CommandLineParser}
    → parse_args xs s ≡ ok t
    → parse_args (xs ++ ys) s ≡ parse_args ys t
parse_args-append [] ys s h = ap (parse_args ys) (parse_args-nil s h)
parse_args-append (x ∷ []) ys s h = elim (Step-cases x s) [
  | inl (u, hit) ↦
      parse_args-done x s ys hit
      ∙ ap (parse_args ys) (parse_args-nil u (sym (parse_args-done x s [] hit) ∙ h))
  | inr (f, hit) ↦ let stop = parse_args-last x s hit in cc
]
parse_args-append (x ∷ x' ∷ xs) ys s h = elim (Step-cases x s) [
  | inl (u, hit) ↦
      parse_args-done x s ((x' ∷ xs) ++ ys) hit
      ∙ parse_args-append (x' ∷ xs) ys u (sym (parse_args-done x s (x' ∷ xs) hit) ∙ h)
  | inr (f, hit) ↦
      parse_args-wants x s x' (xs ++ ys) hit
      ∙ parse_args-append xs ys (f x') (sym (parse_args-wants x s x' xs hit) ∙ h)
]

-- The argument that spells a long option.
abbrev pub long : Bytes → Bytes
long name = b'-' ∷ b'-' ∷ name

module _ (name : Bytes) (s : CommandLineParser) (o : CommandLineOption) where
  parse_arg-long :
      find_option (has_name name) s.options ≡ some o
      → o.has_value ≡ true
      → parse_arg (long name) s
        ≡ wants λ value. record s {
          options = write_option (has_name name) (record o { value = value }) s.options;
        }
  unfolding parse_arg parse_dashed long_option set_value
  parse_arg-long hit valued = rw (hit, long_option, valued, set_value) refl

-- A long option that is the last argument and takes a value reads behind the arguments.
pub parse_args-long_last :
    (args : List Bytes) (name : Bytes) (s : CommandLineParser) {t : CommandLineParser}
    {o : CommandLineOption}
    → parse_args args s ≡ ok t
    → find_option (has_name name) t.options ≡ some o
    → o.has_value ≡ true
    → parse_args (args ++ long name ∷ []) s ≡ fault undefined
parse_args-long_last args name s {t = t} {o = o} parsed hit valued =
    parse_args-append args (long name ∷ []) s parsed
    ∙ parse_args-last (long name) t (parse_arg-long name t o hit valued)

has_name-value :
    (name : Bytes) (o : CommandLineOption) (value : Bytes)
    → has_name name (record o { value = value }) ≡ has_name name o
unfolding has_name
has_name-value name o value = refl

find_option-write_option :
    (name : Bytes) (o : CommandLineOption) (value : Bytes) (os : List CommandLineOption)
    → find_option (has_name name) os ≡ some o
    → find_option (has_name name) (write_option (has_name name) (record o { value = value }) os)
      ≡ some (record o { value = value })
unfolding find_option write_option
find_option-write_option name o value [] hit = cc
find_option-write_option name o value (x ∷ os) hit = elim (Bool-cases (has_name name x)) [
  | inl found ↦
      let here : ◌≡◌ {A = Option CommandLineOption} (some x) (some o) = rw found at hit in
      let same : x ≡ o = cc in
      let named : has_name name o ≡ true = rw same at found in
      rw (found, write_option, has_name-value name o value, named) refl
  | inr other ↦
      rw (other, write_option, other) (find_option-write_option name o value os (rw other at hit))
]

-- A long option with the argument behind it sets the value that `option` then returns.
pub parse_args-long :
    (args : List Bytes) (name value : Bytes) (s : CommandLineParser) {t : CommandLineParser}
    {o : CommandLineOption}
    → parse_args args s ≡ ok t
    → find_option (has_name name) t.options ≡ some o
    → o.has_value ≡ true
    → Returns
        (λ u. (option name u ≡ record o { value = value }) × (u.positionals ≡ t.positionals))
        (parse_args (args ++ long name ∷ value ∷ []) s)
unfolding option
parse_args-long args name value s {t = t} {o = o} parsed hit valued =
    let read =
      parse_args-append args (long name ∷ value ∷ []) s parsed
      ∙ parse_args-wants (long name) t value [] (parse_arg-long name t o hit valued) in
    let found = find_option-write_option name o value t.options hit in
    rw (read, parse_args-end) (rw (found, option) refl, refl)
