-- ===== src/FileMagic/Words.antt =====
-- libwm/filemagic.cc: words, names and blanks of a MIME type's text, as the regex reads them.
use extractor.Base.{
  ℕ, suc, ◌+◌, ◌≡◌, ◌≢◌, refl, true, false, some, [], ◌∷◌, ◌++◌, arith, Bytes, length,
  length-append, append-nil, All, ◌==◌, is_space, is_digit,
}
use extractor.Regex.Groups.{Groups, Rest, match_pattern}
use extractor.Regex.Greedy.{Stops, match_char-one, match_many-greedy, Run-greedy}
use extractor.FileMagic.{is_word_char, is_name_char, sign, some_of, any_of_spaces}

-- A word of the class `\w`, and a name of the class `[\w-]`
pub record IsWord (w : Bytes) : Type 0 where
  pub some_char : w ≢ []
  pub chars : All (λ d. is_word_char d ≡ true) w

pub record IsName (w : Bytes) : Type 0 where
  pub some_char : w ≢ []
  pub chars : All (λ d. is_name_char d ≡ true) w

word-solid : (d : ℕ) → is_word_char d ≡ true → is_space d ≡ false
unfolding is_word_char is_space is_digit
word-solid d h = ground (arith, h)

pub word-Stops : (w rest : Bytes) → IsWord w → Stops is_space (w ++ rest)
word-Stops [] rest h = absurd (h.some_char refl)
word-Stops (d ∷ w) rest h = word-solid d h.chars.0

pub spaces_read :
    (k : Rest) (w rest : Bytes) (p q : ℕ) (gs : Groups) (r : ℕ × Groups)
    → All (λ d. is_space d ≡ true) w
    → Stops is_space rest
    → q ≡ p + length w
    → k q rest gs ≡ some r
    → match_pattern any_of_spaces k p (w ++ rest) gs ≡ some r
unfolding match_pattern
spaces_read k w rest p q gs r spaces stops place hit =
    match_many-greedy is_space k w rest (length (w ++ rest)) p q gs r spaces stops
      (omega (arith, length-append w rest)) place hit

pub sign_read :
    (c : ℕ) (k : Rest) (p : ℕ) (xs : Bytes) (gs : Groups)
    → (c == c) ≡ true
    → match_pattern (sign c) k p (c ∷ xs) gs ≡ k (suc p) xs gs
unfolding match_pattern
sign_read c k p xs gs same = match_char-one (λ x. x == c) k p c xs gs same

pub last_read :
    (k : Rest) (v : Bytes) (p q : ℕ) (gs : Groups) (r : ℕ × Groups)
    → IsName v
    → q ≡ p + length v
    → k q [] gs ≡ some r
    → match_pattern (some_of is_name_char) k p v gs ≡ some r
last_read k v p q gs r name place hit =
    rw (← append-nil v)
      (Run-greedy is_name_char k v [] p q gs r name.some_char name.chars tt place hit)

pub equals_closed : is_word_char 61 ≡ false
unfolding is_word_char is_digit
equals_closed = refl

pub semicolon_solid : is_space 59 ≡ false
unfolding is_space
semicolon_solid = refl

pub blank_space : is_space 32 ≡ true
unfolding is_space
blank_space = refl
