-- ===== src/Asm/Safe.antt =====
-- extract/asmextractor.cc: the invariant of the loop of `parse`.
use extractor.Base.{
  is_space, ℕ, suc, ◌+◌, ◌≤◌, ◌<◌, ◌≡◌, refl, Bool, true, Option, none, some, inl, inr, List, [],
  ◌∷◌, ◌++◌, arith, Bytes, length, length-append, All, All-append, All-imp, Returns, Returns-bind,
  Bool-cases, Option-cases, List-cases,
}
use extractor.Regex.{Item, Match, search_regex, is_found, group}
use extractor.Regex.First.{is_found-first_visible}
use extractor.Asm.{
  AsmFunction, new_function, AsmExtractor, construct, close_function, name_function, inside_line,
  asm_line, asm_lines, add_all, asm_parse,
}
use extractor.Asm.Patterns.{function_start_regex, function_end_regex, function_name_regex}
use extractor.Extractor.Parse.{getlines}

-- A function that starts in one of the first `n` lines, with its omitted lines between.
pub record IsOpen (n : ℕ) (f : AsmFunction) : Type 0 where
  pub first : 1 ≤ f.begin
  pub opened : f.begin ≤ n
  pub omitted : All (λ l. (f.begin < l) × (l ≤ n)) f.omitted_lines

-- A function that ends in one of the first `n` lines.
pub record IsClosed (n : ℕ) (f : AsmFunction) : Type 0 where
  pub first : 1 ≤ f.begin
  pub ordered : f.begin < f.end
  pub closed : f.end ≤ n
  pub omitted : All (λ l. (f.begin < l) × (l < f.end)) f.omitted_lines

-- After `n` lines.
pub record IsSound (n : ℕ) (s : AsmExtractor) : Type 0 where
  pub counted : length s.lines_of_file ≡ n
  pub closed : All (IsClosed n) s.functions
  pub pending : All (IsOpen n) s.open_functions

IsOpen-later : {n : ℕ} (f : AsmFunction) → IsOpen n f → IsOpen (n + 1) f
IsOpen-later {n = n} f h = record {
  first = h.first;
  opened = omega (arith, h.opened);
  omitted =
      All-imp (λ l. (f.begin < l) × (l ≤ n)) (λ l. (f.begin < l) × (l ≤ n + 1))
        (λ l p. (p.0, omega arith)) f.omitted_lines h.omitted;
}

IsClosed-later : {n : ℕ} (f : AsmFunction) → IsClosed n f → IsClosed (n + 1) f
IsClosed-later f h = record {
  first = h.first;
  ordered = h.ordered;
  closed = omega (arith, h.closed);
  omitted = h.omitted;
}

search_regex-is_found :
    (r : List Item) (line : Bytes) {m : Match}
    → search_regex r line ≡ some m
    → is_found r line ≡ true
unfolding is_found
search_regex-is_found r line hit = rw (hit, is_found) refl

-- No line both ends a function and names one.
pub function_name_regex-none :
    (line : Bytes)
    → is_found function_end_regex line ≡ true
    → search_regex function_name_regex line ≡ none
unfolding function_end_regex function_name_regex is_space
function_name_regex-none line h = elim (Option-cases (search_regex function_name_regex line)) [
  | inl nothing ↦ nothing
  | inr (m, hit) ↦
      let dot = is_found-first_visible b'.' _ refl line h in
      let semicolon =
        is_found-first_visible b';' _ refl line
          (search_regex-is_found function_name_regex line hit) in
      cc
]

close_function-IsSound :
    (n : ℕ) (s : AsmExtractor) (below : List AsmFunction) (f : AsmFunction)
    → s.open_functions ≡ f ∷ below
    → length s.lines_of_file ≡ n + 1
    → All (IsClosed n) s.functions
    → All (IsOpen n) s.open_functions
    → IsSound (n + 1) (close_function (n + 1) s.open_functions s)
unfolding close_function
close_function-IsSound n s below f top counted closed pending =
    let open_ones : All (IsOpen n) (f ∷ below) = rw top at pending in
    let shut : IsClosed (n + 1) (record f { end = n + 1 }) = record {
      first = open_ones.0.first;
      ordered = omega (arith, open_ones.0.opened);
      closed = omega arith;
      omitted =
          All-imp (λ l. (f.begin < l) × (l ≤ n)) _ (λ l p. (p.0, omega (arith, p.1)))
            f.omitted_lines open_ones.0.omitted;
    } in
    rw (top, close_function)
      (record {
        counted = counted;
        closed =
            All-append _ s.functions _ (All-imp _ _ IsClosed-later s.functions closed) (shut, tt);
        pending = All-imp _ _ IsOpen-later below open_ones.1;
      })

later-IsSound :
    (n : ℕ) (s : AsmExtractor)
    → length s.lines_of_file ≡ n + 1
    → All (IsClosed n) s.functions
    → All (IsOpen n) s.open_functions
    → IsSound (n + 1) s
later-IsSound n s counted closed pending = record {
  counted = counted;
  closed = All-imp _ _ IsClosed-later s.functions closed;
  pending = All-imp _ _ IsOpen-later s.open_functions pending;
}

name_function-Returns :
    (n : ℕ) (name : Bytes) (s : AsmExtractor) (below : List AsmFunction) (f : AsmFunction)
    → s.open_functions ≡ f ∷ below
    → length s.lines_of_file ≡ n + 1
    → All (IsClosed n) s.functions
    → All (IsOpen n) s.open_functions
    → Returns (IsSound (n + 1)) (name_function (n + 1) name s.open_functions s)
unfolding name_function
name_function-Returns n name s below f top counted closed pending =
    let open_ones : All (IsOpen n) (f ∷ below) = rw top at pending in
    let later = IsOpen-later f open_ones.0 in
    let named : IsOpen (n + 1)
        (record f { assigned_name = name; omitted_lines = f.omitted_lines ++ (n + 1) ∷ [] }) =
      record {
        first = later.first;
        opened = later.opened;
        omitted =
            All-append _ f.omitted_lines _ later.omitted
              ((omega (arith, open_ones.0.opened), omega arith), tt);
      } in
    rw (top, name_function)
      (record {
        counted = counted;
        closed = All-imp _ _ IsClosed-later s.functions closed;
        pending = (named, All-imp _ _ IsOpen-later below open_ones.1);
      })

inside_line-Returns :
    (n : ℕ) (line : Bytes) (s : AsmExtractor) (f : AsmFunction) (below : List AsmFunction)
    → s.open_functions ≡ f ∷ below
    → length s.lines_of_file ≡ n + 1
    → All (IsClosed n) s.functions
    → All (IsOpen n) s.open_functions
    → Returns (IsSound (n + 1)) (inside_line (n + 1) line s)
unfolding inside_line
inside_line-Returns n line s f below top counted closed pending =
    elim (Bool-cases (is_found function_end_regex line)) [
      | inl ends ↦
          rw (function_name_regex-none line ends, ends, inside_line)
            (close_function-IsSound n s below f top counted closed pending)
      | inr inner ↦ elim (Option-cases (search_regex function_name_regex line)) [
        | inl nothing ↦ rw (nothing, inner, inside_line) (later-IsSound n s counted closed pending)
        | inr (m, hit) ↦
            rw (hit, inner, inside_line)
              (name_function-Returns n _ s below f top counted closed pending)
      ]
    ]

module _ (n : ℕ) (line : Bytes) (s : AsmExtractor) (h : IsSound n s) where
  start_IsOpen : (name : Bytes) → IsOpen (n + 1) (new_function (n + 1) name)
  start_IsOpen name = record { first = omega arith; opened = omega arith; omitted = tt }

  counted : length (s.lines_of_file ++ line ∷ []) ≡ n + 1
  counted = omega (arith, length-append s.lines_of_file (line ∷ []), h.counted)

  asm_line-Returns : Returns (IsSound (n + 1)) (asm_line (n + 1) line s)
  unfolding asm_line
  asm_line-Returns =
      let t = record s { lines_of_file = s.lines_of_file ++ line ∷ [] } in
      elim (Option-cases (search_regex function_start_regex line)) [
        | inr (m, starts) ↦
            rw (starts, asm_line)
              (record {
                counted = counted;
                closed = All-imp _ _ IsClosed-later s.functions h.closed;
                pending = (
                  start_IsOpen (group m 0 1 line),
                  All-imp _ _ IsOpen-later s.open_functions h.pending,
                );
              })
        | inl inner ↦ elim (List-cases s.open_functions) [
          | inl empty ↦ rw (inner, empty, asm_line) (later-IsSound n t counted h.closed h.pending)
          | inr (f, below, top) ↦
              rw (inner, top, asm_line)
                (inside_line-Returns n line t f below top counted h.closed h.pending)
        ]
      ]

add_length {ℓ} : {A : Type ℓ} (n : ℕ) (xs : List A) → n + 1 + length xs ≡ n + suc (length xs)
add_length n xs = omega arith

asm_lines-Returns :
    (n : ℕ) (lines : List Bytes) (s : AsmExtractor)
    → IsSound n s
    → Returns (λ r. (r.0 ≡ n + length lines) × IsSound r.0 r.1) (asm_lines n lines s)
unfolding asm_lines
asm_lines-Returns n [] s h = (omega arith, h)
asm_lines-Returns n (line ∷ lines) s h =
    Returns-bind _ _ (asm_line (n + 1) line s) _ (asm_line-Returns n line s h)
      λ t ht. rw (← add_length n lines) (asm_lines-Returns (n + 1) lines t ht)

-- What a caller of `parse` may rely on: every function begins and ends in the file, "all" at its
-- end included, and omits lines between its first and its last only.
pub record IsListed (f : AsmFunction) (count : ℕ) : Type 0 where
  pub first : 1 ≤ f.begin
  pub ordered : f.begin ≤ f.end
  pub closed : f.end ≤ count + 1
  pub omitted : All (λ l. (f.begin < l) × (l < f.end)) f.omitted_lines

-- The extractor has read `count` lines and reports success.
abbrev pub IsParsed : ℕ → AsmExtractor × Bool → Type 0
IsParsed count (s, done) =
    (done ≡ true) × (length s.lines_of_file ≡ count) × All (λ f. IsListed f count) s.functions

IsClosed-IsListed : {n count : ℕ} → n ≡ count → (f : AsmFunction) → IsClosed n f → IsListed f count
IsClosed-IsListed same f c = record {
  first = c.first;
  ordered = omega (arith, c.ordered);
  closed = omega (arith, c.closed, same);
  omitted = c.omitted;
}

pub asm_parse-Returns :
    (files : Bytes → Option Bytes) (path text : Bytes)
    → files path ≡ some text
    → Returns (IsParsed (length (getlines text))) (asm_parse files (construct path))
unfolding asm_parse add_all
asm_parse-Returns files path text read =
    rw (read, asm_parse)
      (Returns-bind _ _ (asm_lines 0 (getlines text) (construct path)) _
        (asm_lines-Returns 0 (getlines text) (construct path)
          (record { counted = refl; closed = tt; pending = tt }))
        λ r h. (
          refl,
          omega (arith, h.1.counted, h.0),
          All-append _ r.1.functions _
              (All-imp _ _ (IsClosed-IsListed (omega (arith, h.0))) r.1.functions h.1.closed)
              (
                record {
                  first = omega arith;
                  ordered = omega arith;
                  closed = omega (arith, h.0);
                  omitted = tt;
                },
                tt,
              ),
        ))
