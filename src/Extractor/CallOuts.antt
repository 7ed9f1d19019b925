-- ===== src/Extractor/CallOuts.antt =====
-- extract/cppextractor.cc: the branch of `parse` for a line with a callout.
use extractor.Base.{
  ℕ, suc, ◌+◌, ◌≡◌, refl, Bool, true, false, not, ◌&&◌, Option, none, some, List, [], ◌∷◌, ◌++◌,
  append_assoc, arith, Bytes, All, length, length-append, slice, slice-append, slice-end, ltb, ◌==◌,
  if◌then◌else◌, is_space, is_digit, to_string, to_string_digits, digits_of-All, assign, nat_key, ℤ,
  pos, negsuc, Outcome, ok, fault, out_of_range, ◌>>=◌,
}
use extractor.Boost.{Boost}
use extractor.Regex.{search_regex, run, lit}
use extractor.Regex.Needs.{Lacks}
use extractor.Regex.Greedy.{Stops}
use extractor.Regex.Runs.{
  star_step, last_star_step, lit_step, mark_step, end_step, search_regex-Lacks,
}
use extractor.Extractor.{CallOut}
use extractor.Extractor.Patterns.{call_out_regex, call_out_tail}
use extractor.Extractor.Parse.{Parsing, push_line, stoi, call_out_line, dispatch}
use extractor.Extractor.Numbers.{stoi-to_string}

-- The character that starts a comment when it is doubled
abbrev pub comment_sign : Bool → ℕ
comment_sign true = b'-'
comment_sign false = b'/'

-- The digits between the angle brackets, which may be missing, and the number of the callout
abbrev pub number_text : Option ℕ → Bytes
number_text none = []
number_text (some n) = to_string n

abbrev pub call_out_number : Option ℕ → Outcome ℤ
call_out_number none = ok (negsuc 0)
call_out_number (some n) = if ltb 2147483647 n then fault out_of_range else ok (pos n)

-- A line with a callout: code, the sign twice, blanks, the digits in angle brackets, blanks, a text
abbrev pub call_out_text : ℕ → Bytes → Bytes → Bytes → Bytes → Bytes → Bytes
call_out_text c code blank digits blank' text =
    code ++ c ∷ c ∷ (blank ++ 60 ∷ (digits ++ 62 ∷ (blank' ++ text)))

pub record IsCallOut (c : ℕ) (code blank blank' text : Bytes) : Type 0 where
  pub code_lacks : Lacks c code
  pub blank_spaces : All (λ x. is_space x ≡ true) blank
  pub blank'_spaces : All (λ x. is_space x ≡ true) blank'
  pub text_visible : Stops is_space text
  pub one_line : All (λ x. (not (x == 10) && not (x == 13)) ≡ true) text

-- The places of the marks, where the bracket stands at `a` and the runs behind it have `n`, `w` and
-- `t` characters
abbrev marks : ℕ → ℕ → ℕ → ℕ → List ℕ
marks a n w t = let q = suc a + n in a ∷ (suc a) ∷ q ∷ (suc q) ∷ (suc q + w) ∷ (suc q + w + t) ∷ []

stoi-number_text : (number : Option ℕ) → stoi (number_text number) ≡ call_out_number number
unfolding stoi
stoi-number_text none = refl
stoi-number_text (some n) = stoi-to_string n

digits-IsNumeral : (number : Option ℕ) → All (λ d. is_digit d ≡ true) (number_text number)
digits-IsNumeral none = tt
digits-IsNumeral (some n) = rw (to_string_digits n) (digits_of-All (suc n) n)

angle_visible : is_space 60 ≡ false
unfolding is_space
angle_visible = refl

angle_closes : is_digit 62 ≡ false
unfolding is_digit
angle_closes = refl

module _ (c : ℕ) (code blank digits blank' text : Bytes) (h : IsCallOut c code blank blank' text)
    (numeral : All (λ d. is_digit d ≡ true) digits) where
  tail_run :
      (p : ℕ)
      → (e : ℕ) × run call_out_tail p (blank ++ 60 ∷ (digits ++ 62 ∷ (blank' ++ text)))
          ≡ some (e, marks (p + length blank) (length digits) (length blank') (length text))
  tail_run p =
      let a = p + length blank in
      let q = suc a + length digits in
      let r = suc q + length blank' in
      let e = r + length text in
      let texts =
        mark_step _ r text
          (last_star_step _ _ r e text h.one_line refl (mark_step _ e [] (end_step e []))) in
      let behind =
        mark_step _ (suc q) _
          (star_step is_space _ (suc q) r blank' text h.blank'_spaces h.text_visible refl texts) in
      let number =
        star_step is_digit _ (suc a) q digits _ numeral angle_closes refl
          (mark_step _ q _ (lit_step 62 _ q _ behind)) in
      (
        e,
        star_step is_space _ p a blank _ h.blank_spaces angle_visible refl
            (mark_step _ a _ (lit_step 60 _ a _ (mark_step _ (suc a) _ number))),
      )

  call_out_found :
      (e : ℕ) × search_regex
          (lit c ∷ lit c ∷ call_out_tail)
          (call_out_text c code blank digits blank' text)
        ≡ some (record {
          first = length code;
          second = e;
          marks =
              marks
                (suc (suc (length code)) + length blank)
                (length digits)
                (length blank')
                (length text);
        })
  call_out_found =
      let p = length code in
      let (e, hit) = tail_run (suc (suc p)) in
      (
        e,
        search_regex-Lacks c (lit c ∷ call_out_tail) code _ h.code_lacks
            (lit_step c _ p _ (lit_step c _ (suc p) _ hit)),
      )

  digits_front : Bytes
  digits_front = code ++ c ∷ c ∷ (blank ++ 60 ∷ [])

  text_front : Bytes
  text_front = code ++ c ∷ c ∷ (blank ++ 60 ∷ (digits ++ 62 ∷ blank'))

  digits_slice :
      (a : ℕ)
      → a ≡ suc (suc (length code)) + length blank
      → slice (suc a) (suc a + length digits) (call_out_text c code blank digits blank' text)
        ≡ digits
  unfolding digits_front
  digits_slice a place =
      let rest = 62 ∷ (blank' ++ text) in
      let split : call_out_text c code blank digits blank' text ≡ digits_front ++ (digits ++ rest) =
        simp (append_assoc) in
      let size = length-append code (c ∷ c ∷ (blank ++ 60 ∷ [])) in
      let size' = length-append blank (60 ∷ []) in
      rw split (
        slice-append digits_front digits rest (suc a) (suc a + length digits)
          (omega (arith, size, size', place)) (omega (arith, size, size', place)))

  text_slice :
      (q : ℕ)
      → q ≡ suc (suc (suc (suc (length code)) + length blank) + length digits) + length blank'
      → slice q (q + length text) (call_out_text c code blank digits blank' text) ≡ text
  unfolding text_front
  text_slice q place =
      let split : call_out_text c code blank digits blank' text ≡ text_front ++ text =
        simp (append_assoc) in
      let size = length-append code (c ∷ c ∷ (blank ++ 60 ∷ (digits ++ 62 ∷ blank'))) in
      let size' = length-append blank (60 ∷ (digits ++ 62 ∷ blank')) in
      let size'' = length-append digits (62 ∷ blank') in
      rw split (
        slice-end text_front text q (q + length text) (omega (arith, size, size', size'', place))
          (omega (arith, size, size', size'', place)))

call_out_regex_sign :
    (lua : Bool)
    → call_out_regex lua ≡ lit (comment_sign lua) ∷ lit (comment_sign lua) ∷ call_out_tail
unfolding call_out_regex
call_out_regex_sign true = refl
call_out_regex_sign false = refl

-- What the branch makes of the state: the callout is stored under the number of the line that is
-- stored next, and that line is stored.
abbrev pub call_out_stored : Parsing → Bytes → ℕ → ℕ → Bytes → ℤ → Parsing
call_out_stored s line column comment_column text number =
    let co : CallOut = record {
      line_number = s.line_number;
      column = column;
      number = number;
      text = text;
      comment_column = comment_column;
    } in
    push_line
      (record s { self = record s.self { callouts = assign s.line_number co s.self.callouts } })
      line

pub dispatch-call_out :
    (boost : Boost) (s : Parsing) (number : Option ℕ) (code blank blank' text : Bytes)
    → IsCallOut (comment_sign s.self.lua) code blank blank' text
    → dispatch boost s
        (call_out_text (comment_sign s.self.lua) code blank (number_text number) blank' text)
      ≡ (call_out_number number >>= λ n. ok (
          call_out_stored s
            (call_out_text (comment_sign s.self.lua) code blank (number_text number) blank' text)
            (length code + 2 + length blank)
            (length code)
            text
            n))
unfolding dispatch call_out_line
dispatch-call_out boost s number code blank blank' text h =
    let c = comment_sign s.self.lua in
    let digits = number_text number in
    let (e, hit) = call_out_found c code blank digits blank' text h (digits-IsNumeral number) in
    let column : suc (suc (length code)) + length blank ≡ length code + 2 + length blank =
      omega arith in
    rw (call_out_regex_sign s.self.lua, dispatch)
      (rw (hit, dispatch)
        (rw
          (
            call_out_line,
            digits_slice c code blank digits blank' text h (digits-IsNumeral number) _ refl,
            text_slice c code blank digits blank' text h (digits-IsNumeral number) _ refl,
            stoi-number_text number,
            column,
          )
          refl))
