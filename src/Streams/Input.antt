-- ===== src/Streams/Input.antt =====
-- libwm/algorithm.h and libwm/algorithm.cc: how words, numbers, pairs and containers are read from
-- a stream.
use extractor.Base.{
  ℕ, zero, suc, ◌-◌, ◌%◌, ◌^◌, Bool, true, false, not, ◌&&◌, List, [], ◌∷◌, ◌++◌, Option, none,
  some, Bytes, ltb, ◌==◌, if◌then◌else◌, is_space, is_digit, is_empty, digits_value, bytes_eq,
  codes, insert, bytes_key,
}

-- What is left of the text, and the bits `eofbit` and `failbit`.
pub record InStream : Type 0 where
  pub rest : Bytes
  pub eof : Bool
  pub fail : Bool

-- A stream in a good state
abbrev pub at : Bytes → InStream
at s = record { rest = s; eof = false; fail = false }

unfoldable pub is_good : InStream → Bool
is_good input = not input.eof && not input.fail

unfoldable pub skip_spaces : Bytes → Bytes
skip_spaces [] = []
skip_spaces (c ∷ s) = if is_space c then skip_spaces s else c ∷ s

-- The bytes in front of the first that fails the test, and what stands behind them.
unfoldable pub take_while : (ℕ → Bool) → Bytes → Bytes
take_while p [] = []
take_while p (c ∷ s) = if p c then c ∷ take_while p s else []

unfoldable pub drop_while : (ℕ → Bool) → Bytes → Bytes
drop_while p [] = []
drop_while p (c ∷ s) = if p c then drop_while p s else c ∷ s

-- The state behind a value that was read up to `s`: a value at the end of the text meets that end.
unfoldable pub behind : Bool → Bytes → InStream
behind failed s = record { rest = s; eof = is_empty s; fail = failed }

-- No value is read: a stream that is not good only fails, and a good one has met its end.
unfoldable pub unread : InStream → InStream
unfolding is_good
unread input =
    if is_good input
    then record { rest = []; eof = true; fail = true }
    else record input { fail = true }

-- `in >> token`: a token that cannot be read keeps its value.
unfoldable pub read_word : Bytes → InStream → Bytes × InStream
unfolding is_good skip_spaces take_while drop_while behind unread
read_word token input =
    let s = skip_spaces input.rest in
    if is_good input && not (is_empty s)
    then (take_while (λ c. not (is_space c)) s, behind false (drop_while (λ c. not (is_space c)) s))
    else (token, unread input)

-- The value of a `size_t` with a sign or without one, and whether it is out of range or missing.
unfoldable pub number_value : Bool → Bytes → ℕ × Bool
number_value negative digits =
    let n = digits_value 0 digits in
    if is_empty digits
    then (0, true)
    else if ltb 18446744073709551615 n
    then (18446744073709551615, true)
    else ((if negative then (2 ^ 64 - n) % 2 ^ 64 else n), false)

unfoldable pub read_digits : Bool → Bytes → ℕ × InStream
unfolding number_value take_while drop_while behind
read_digits negative s =
    let v = number_value negative (take_while is_digit s) in
    (v.0, behind v.1 (drop_while is_digit s))

unfoldable pub read_signed : Bytes → ℕ × InStream
unfolding read_digits
read_signed [] = read_digits false []
read_signed (c ∷ s) =
    if c == b'-'
    then read_digits true s
    else if c == b'+'
    then read_digits false s
    else read_digits false (c ∷ s)

-- `in >> number` of a `size_t`
unfoldable pub read_number : ℕ → InStream → ℕ × InStream
unfolding is_good skip_spaces unread read_signed
read_number number input =
    let s = skip_spaces input.rest in
    if is_good input && not (is_empty s) then read_signed s else (number, unread input)

-- `in >> second` and the closing bracket behind it
unfoldable pub read_second : ℕ × ℕ → ℕ → Bytes → InStream → (ℕ × ℕ) × InStream
unfolding read_word read_number
read_second p first token in3 =
    let (second, in4) = read_number 0 in3 in
    let (token, in5) = read_word token in4 in
    if not (bytes_eq token (codes ")")) then (p, in5) else ((first, second), in5)

-- `in >> first` and the comma behind it
unfoldable pub read_first : ℕ × ℕ → Bytes → InStream → (ℕ × ℕ) × InStream
unfolding read_word read_number read_second
read_first p token in1 =
    let (first, in2) = read_number 0 in1 in
    let (token, in3) = read_word token in2 in
    if not (bytes_eq token (codes ",")) then (p, in3) else read_second p first token in3

-- `operator>>` of a pair of numbers. The variables have no value before they are read; where they
-- stay so, the next token is no comma or bracket either.
unfoldable pub read_pair : ℕ × ℕ → InStream → (ℕ × ℕ) × InStream
unfolding read_word read_first
read_pair p input =
    let (token, in1) = read_word [] input in
    if not (bytes_eq token (codes "(")) then (p, in1) else read_first p token in1

module _ {A : Type 0} (read : A → InStream → A × InStream) (item : A) where
  -- The loop of `operator>>` of a vector on fuel; `none` means that the fuel ran out.
  unfoldable pub read_items : ℕ → Bytes → List A → InStream → Option (List A × InStream)
  unfolding read_word
  read_items zero token v input = none
  read_items (suc fuel) token v input = elim (bytes_eq token (codes "]")) [
    | true ↦ some (v, input)
    | false ↦
        let (x, in1) = read item input in
        let (token, in2) = read_word token in1 in read_items fuel token (v ++ x ∷ []) in2
  ]

  -- `operator>>` of a vector, where `item` is the value that `T item` makes
  unfoldable pub read_vector : ℕ → List A → InStream → Option (List A × InStream)
  unfolding read_word read_items
  read_vector fuel v input =
      let (token, in1) = read_word [] input in
      if not (bytes_eq token (codes "[")) then some (v, in1) else read_items fuel token v in1

-- The loop of `operator>>` of a set of strings and of a vector of strings, on fuel; `put` is
-- `insert` or `push_back`.
unfoldable pub read_tokens :
    (Bytes → List Bytes → List Bytes)
    → ℕ
    → Bytes
    → List Bytes
    → InStream
    → Option (List Bytes × InStream)
unfolding read_word
read_tokens put zero token xs input = none
read_tokens put (suc fuel) token xs input = elim (bytes_eq token (codes "]")) [
  | true ↦ some (xs, input)
  | false ↦
      let ys = if not (bytes_eq token (codes ",")) then put token xs else xs in
      let (token, in1) = read_word token input in read_tokens put fuel token ys in1
]

unfoldable pub read_strings :
    (Bytes → List Bytes → List Bytes) → ℕ → List Bytes → InStream → Option (List Bytes × InStream)
unfolding read_word read_tokens
read_strings put fuel xs input =
    let (token, in1) = read_word [] input in
    if not (bytes_eq token (codes "["))
    then some (xs, in1)
    else (let (token, in2) = read_word token in1 in read_tokens put fuel token xs in2)

-- `operator>>` of a `set<string>`
unfoldable pub read_string_set : ℕ → List Bytes → InStream → Option (List Bytes × InStream)
unfolding read_strings
read_string_set = read_strings (λ x xs. insert x xs)

-- `operator>>` of a `vector<string>`
unfoldable pub read_string_vector : ℕ → List Bytes → InStream → Option (List Bytes × InStream)
unfolding read_strings
read_string_vector = read_strings (λ x xs. xs ++ x ∷ [])
