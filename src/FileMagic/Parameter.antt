-- ===== src/FileMagic/Parameter.antt =====
-- libwm/filemagic.cc: the parameter of a MIME type's text, as the regex reads it.
use extractor.Base.{
  ℕ, suc, ◌+◌, ◌≡◌, refl, ◌∙◌, false, none, some, [], ◌∷◌, ◌++◌, arith, Bytes, length, ◌==◌,
  if◌then◌else◌,
}
use extractor.Regex.Groups.{Pattern, Groups, Rest, match_char, match_many, match_pattern, accept}
use extractor.Regex.Greedy.{
  Run-greedy, match_group, match_many-once, match_many-stop, match_many_rounds,
}
use extractor.FileMagic.{is_word_char, is_name_char, sign, some_of, any_of_spaces, list_pattern}
use extractor.FileMagic.Words.{
  IsWord, IsName, word-Stops, spaces_read, sign_read, last_read, equals_closed, semicolon_solid,
  blank_space,
}

abbrev parameter_body : Pattern
parameter_body = Pattern.seq any_of_spaces (
    Pattern.seq (sign b';') (
      Pattern.seq any_of_spaces
        (Pattern.seq (some_of is_word_char) (Pattern.seq (sign b'=') (some_of is_name_char)))))

body_read :
    (k : Rest) (n v : Bytes) (p q : ℕ) (gs : Groups) (r : ℕ × Groups)
    → IsWord n
    → IsName v
    → q ≡ p + (length n + length v + 3)
    → k q [] gs ≡ some r
    → match_pattern parameter_body k p (59 ∷ 32 ∷ (n ++ 61 ∷ v)) gs ≡ some r
unfolding match_pattern
body_read k n v p q gs r word name place hit =
    let k1 = match_pattern (some_of is_name_char) k in
    let k2 = match_pattern (sign b'=') k1 in
    let k3 = match_pattern (some_of is_word_char) k2 in
    let k4 = match_pattern any_of_spaces k3 in
    let m = suc p + 1 + length n in
    let last = last_read k v (suc m) q gs r name (omega (arith, place)) hit in
    let named = sign_read b'=' k1 m v gs refl ∙ last in
    let worded =
      Run-greedy is_word_char k2 n (61 ∷ v) (suc p + 1) m gs r word.some_char word.chars
        equals_closed refl named in
    let spaced =
      spaces_read k3 (32 ∷ []) (n ++ 61 ∷ v) (suc p) (suc p + 1) gs r (blank_space, tt)
        (word-Stops n (61 ∷ v) word) refl worded in
    spaces_read (match_pattern (sign b';') k4) [] (59 ∷ 32 ∷ (n ++ 61 ∷ v)) p p gs r tt
      semicolon_solid (omega arith) (sign_read b';' k4 p (32 ∷ (n ++ 61 ∷ v)) gs refl ∙ spaced)

-- Nothing is left for a further parameter.
body_end : (k : Rest) (p : ℕ) (gs : Groups) → match_pattern parameter_body k p [] gs ≡ none
unfolding match_pattern match_many match_char
body_end k p gs = refl

group_body_end :
    (k : Rest) (p : ℕ) (gs : Groups)
    → match_pattern (Pattern.group 10 parameter_body) k p [] gs ≡ none
group_body_end k p gs =
    match_group parameter_body k p [] gs 10 ∙ body_end (λ q ys hs. k q ys ((10, (p, q)) ∷ hs)) p gs

pub list_read :
    (n v : Bytes) (a e : ℕ) (gs : Groups)
    → IsWord n
    → IsName v
    → e ≡ a + (length n + length v + 3)
    → match_pattern list_pattern accept a (59 ∷ 32 ∷ (n ++ 61 ∷ v)) gs
      ≡ some (e, (9, (a, e)) ∷ (10, (a, e)) ∷ gs)
unfolding list_pattern
list_read n v a e gs word name place =
    let later : (e == a) ≡ false = ground (arith, place) in
    let one = Pattern.group 10 parameter_body in
    let text = 32 ∷ (n ++ 61 ∷ v) in
    let last : Rest = λ q ys hs. accept q ys ((9, (a, q)) ∷ hs) in
    let k : Rest = λ q ys hs.
      if q == a then none else match_many (match_pattern one) (length text) last q ys hs in
    let ended : k e [] ((10, (a, e)) ∷ gs) ≡ some (e, (9, (a, e)) ∷ (10, (a, e)) ∷ gs) = rw later (
      match_many-stop one (length text) last e [] ((10, (a, e)) ∷ gs)
        (λ k'. group_body_end k' e _)) in
    match_group (Pattern.many one) accept a (59 ∷ text) gs 9
    ∙ match_many_rounds one last a (59 ∷ text) gs
    ∙ match_many-once one (length text) last a (59 ∷ text) gs _ (
        match_group parameter_body k a (59 ∷ text) gs 10
        ∙ body_read (λ q ys hs. k q ys ((10, (a, q)) ∷ hs)) n v a e gs _ word name place ended)
