-- ===== src/FileMagic/Usual.antt =====
-- libwm/filemagic.cc: the parser of MIME types on the usual texts of libmagic, a type and a subtype
-- with one parameter.
use extractor.Base.{
  ℕ, suc, ◌+◌, ◌≡◌, refl, ◌∙◌, Bool, true, false, none, some, [], ◌∷◌, ◌++◌, arith, Bytes, length,
  All, ◌==◌, is_digit, codes, All-imp, All-append,
}
use extractor.Regex.Groups.{Pattern, Groups, Rest, match_char, match_pattern, accept, search_groups}
use extractor.Regex.Greedy.{
  Stops, Run-greedy, Run-none, search_groups-first, match_group, match_seq, match_maybe-none,
  match_maybe-some,
}
use extractor.FileMagic.{
  is_word_char, is_name_char, sign, some_of, any_of_spaces, tree_pattern, sub_type_pattern,
  list_pattern, mime_pattern,
}
use extractor.FileMagic.Words.{IsWord, IsName, spaces_read, sign_read, semicolon_solid}
use extractor.FileMagic.Parameter.{list_read}

-- The `++` of a subtype like `x-c++`
abbrev pub pluses : Bool → Bytes
pluses true = codes "++"
pluses false = []

abbrev pub plus_groups : Bool → ℕ → Groups → Groups
plus_groups true m gs = (6, (m, m + 2)) ∷ gs
plus_groups false m gs = gs

abbrev suffix_pattern : Pattern
suffix_pattern = Pattern.group 7 (Pattern.seq (sign b'+') (Pattern.group 8 (some_of is_word_char)))

abbrev plus_pattern : Pattern
plus_pattern = Pattern.group 6 (Pattern.seq (sign b'+') (sign b'+'))

suffix_none :
    (k : Rest) (p : ℕ) (t : Bytes) (gs : Groups)
    → match_pattern suffix_pattern k p (59 ∷ t) gs ≡ none
unfolding match_pattern match_char
suffix_none k p t gs = refl

plus_none :
    (k : Rest) (p : ℕ) (t : Bytes) (gs : Groups) → match_pattern plus_pattern k p (59 ∷ t) gs ≡ none
unfolding match_pattern match_char
plus_none k p t gs = refl

name-Stops : (plus : Bool) (t : Bytes) → Stops is_name_char (pluses plus ++ 59 ∷ t)
unfolding is_name_char is_word_char is_digit
name-Stops true t = refl
name-Stops false t = refl

-- The part behind the characters of the name: the pluses, and no suffix
pluses_read :
    (plus : Bool) (k : Rest) (m q : ℕ) (t : Bytes) (gs : Groups) (r : ℕ × Groups)
    → q ≡ m + length (pluses plus)
    → k q (59 ∷ t) (plus_groups plus m gs) ≡ some r
    → match_pattern (Pattern.maybe plus_pattern) k m (pluses plus ++ 59 ∷ t) gs ≡ some r
pluses_read true k m q t gs r place hit =
    let k6 : Rest = λ p ys hs. k p ys ((6, (m, p)) ∷ hs) in
    let behind : suc (suc m) ≡ q = omega (arith, place) in
    let same : q ≡ m + 2 = omega (arith, place) in
    let hit' : k q (59 ∷ t) ((6, (m, q)) ∷ gs) ≡ some r = rw same (rw same at hit) in
    match_maybe-some plus_pattern k m (43 ∷ 43 ∷ 59 ∷ t) gs r (
      match_group (Pattern.seq (sign b'+') (sign b'+')) k m (43 ∷ 43 ∷ 59 ∷ t) gs 6
      ∙ match_seq (sign b'+') k6 m (43 ∷ 43 ∷ 59 ∷ t) gs (sign b'+')
      ∙ sign_read b'+' (match_pattern (sign b'+') k6) m (43 ∷ 59 ∷ t) gs refl
      ∙ sign_read b'+' k6 (suc m) (59 ∷ t) gs refl
      ∙ rw behind hit')
pluses_read false k m q t gs r place hit =
    let same : q ≡ m = omega (arith, place) in
    match_maybe-none plus_pattern k m (59 ∷ t) gs (plus_none k m t gs) ∙ rw same at hit

sub_type_read :
    (plus : Bool) (k : Rest) (s t : Bytes) (p q : ℕ) (gs : Groups) (r : ℕ × Groups)
    → IsName s
    → q ≡ p + length s + length (pluses plus)
    → k q (59 ∷ t) ((4, (p, q)) ∷ (5, (p, q)) ∷ plus_groups plus (p + length s) gs) ≡ some r
    → match_pattern sub_type_pattern k p (s ++ (pluses plus ++ 59 ∷ t)) gs ≡ some r
unfolding sub_type_pattern
sub_type_read plus k s t p q gs r name place hit =
    let k4 : Rest = λ q ys hs. k q ys ((4, (p, q)) ∷ hs) in
    let k7 = match_pattern (Pattern.maybe suffix_pattern) k4 in
    let k5 : Rest = λ q ys hs. k7 q ys ((5, (p, q)) ∷ hs) in
    let k6 = match_pattern (Pattern.maybe plus_pattern) k5 in
    let inner = Pattern.seq (some_of is_name_char) (Pattern.maybe plus_pattern) in
    let text = s ++ (pluses plus ++ 59 ∷ t) in
    let m = p + length s in
    let hs = plus_groups plus m gs in
    let ended =
      match_maybe-none suffix_pattern k4 q (59 ∷ t) ((5, (p, q)) ∷ hs) (suffix_none k4 q t _)
      ∙ hit in
    match_group (Pattern.seq (Pattern.group 5 inner) (Pattern.maybe suffix_pattern)) k p text gs 4
    ∙ match_seq (Pattern.group 5 inner) k4 p text gs (Pattern.maybe suffix_pattern)
    ∙ match_group inner k7 p text gs 5
    ∙ match_seq (some_of is_name_char) k5 p text gs (Pattern.maybe plus_pattern)
    ∙ Run-greedy is_name_char k6 s (pluses plus ++ 59 ∷ t) p m gs r name.some_char name.chars
        (name-Stops plus t) refl (pluses_read plus k5 m q t gs r place ended)

abbrev NoDot : Bytes → Type 0
NoDot = All (λ d. (d == b'.') ≡ false)

dot_none :
    (k : Rest) (q : ℕ) (ys : Bytes) (hs : Groups)
    → NoDot ys
    → match_pattern (sign b'.') k q ys hs ≡ none
unfolding match_pattern match_char
dot_none k q [] hs h = refl
dot_none k q (y ∷ ys) hs h = rw h.0 refl

tree_none :
    (k : Rest) (p : ℕ) (xs : Bytes) (gs : Groups)
    → NoDot xs
    → match_pattern tree_pattern k p xs gs ≡ k p xs gs
unfolding tree_pattern
tree_none k p xs gs h =
    let k2 : Rest = λ q ys hs. k q ys ((2, (p, q)) ∷ hs) in
    let tree = Pattern.seq (Pattern.group 3 (some_of is_word_char)) (sign b'.') in
    let dot = match_pattern (sign b'.') k2 in
    match_maybe-none (Pattern.group 2 tree) k p xs gs (
      match_group tree k p xs gs 2
      ∙ match_seq (Pattern.group 3 (some_of is_word_char)) k2 p xs gs (sign b'.')
      ∙ match_group (some_of is_word_char) dot p xs gs 3
      ∙ Run-none is_word_char (λ q ys hs. dot q ys ((3, (p, q)) ∷ hs)) (λ d. (d == b'.') ≡ false) p
          xs gs (λ q ys hs h. dot_none k2 q ys ((3, (p, q)) ∷ hs) h) h)

-- A type, a subtype and one parameter, as libmagic writes them
abbrev pub usual : Bytes → Bytes → Bool → Bytes → Bytes → Bytes
usual t s plus n v = t ++ 47 ∷ (s ++ (pluses plus ++ 59 ∷ 32 ∷ (n ++ 61 ∷ v)))

word_dot : (d : ℕ) → is_word_char d ≡ true → (d == b'.') ≡ false
unfolding is_word_char is_digit
word_dot d h = ground (arith, h)

name_dot : (d : ℕ) → is_name_char d ≡ true → (d == b'.') ≡ false
unfolding is_name_char is_word_char is_digit
name_dot d h = ground (arith, h)

pluses-NoDot : (plus : Bool) → NoDot (pluses plus)
pluses-NoDot true = (refl, (refl, tt))
pluses-NoDot false = tt

usual-NoDot :
    (s n v : Bytes) (plus : Bool)
    → IsName s
    → IsWord n
    → IsName v
    → NoDot (s ++ (pluses plus ++ 59 ∷ 32 ∷ (n ++ 61 ∷ v)))
usual-NoDot s n v plus hs hn hv =
    let Q : ℕ → Type 0 = λ d. (d == b'.') ≡ false in
    let word : NoDot n = All-imp (λ d. is_word_char d ≡ true) Q word_dot n hn.chars in
    let value : NoDot v = All-imp (λ d. is_name_char d ≡ true) Q name_dot v hv.chars in
    let sub : NoDot s = All-imp (λ d. is_name_char d ≡ true) Q name_dot s hs.chars in
    All-append Q s _ sub (
      All-append Q (pluses plus) _ (pluses-NoDot plus)
        (refl, (refl, All-append Q n (61 ∷ v) word (refl, value))))

abbrev pub usual_groups : ℕ → ℕ → Bool → ℕ → ℕ → Groups
usual_groups lt ls plus a e =
    (9, (a, e))
    ∷ (10, (a, e))
    ∷ (4, (suc lt, a))
    ∷ (5, (suc lt, a))
    ∷ plus_groups plus (suc lt + ls) ((1, (0, lt)) ∷ [])

slash_closed : is_word_char 47 ≡ false
unfolding is_word_char is_digit
slash_closed = refl

pub usual_found :
    (t s n v : Bytes) (plus : Bool) (a e : ℕ)
    → IsWord t
    → IsName s
    → IsWord n
    → IsName v
    → a ≡ suc (length t) + length s + length (pluses plus)
    → e ≡ a + (length n + length v + 3)
    → search_groups mime_pattern (usual t s plus n v)
      ≡ some (e, usual_groups (length t) (length s) plus a e)
unfolding mime_pattern
usual_found t s n v plus a e ht hs hn hv place last =
    let p5 = Pattern.seq any_of_spaces list_pattern in
    let p4 = Pattern.seq sub_type_pattern p5 in
    let p3 = Pattern.seq tree_pattern p4 in
    let p2 = Pattern.seq (sign b'/') p3 in
    let t2 = 32 ∷ (n ++ 61 ∷ v) in
    let rest = s ++ (pluses plus ++ 59 ∷ t2) in
    let lt = length t in
    let g1 : Groups = (1, (0, lt)) ∷ [] in
    let g4 : Groups =
      (4, (suc lt, a)) ∷ (5, (suc lt, a)) ∷ plus_groups plus (suc lt + length s) g1 in
    let r : ℕ × Groups = (e, usual_groups lt (length s) plus a e) in
    let k1 : Rest = λ q ys gs. match_pattern p2 accept q ys ((1, (0, q)) ∷ gs) in
    let behind_sub =
      match_seq any_of_spaces accept a (59 ∷ t2) g4 list_pattern
      ∙ spaces_read (match_pattern list_pattern accept) [] (59 ∷ t2) a a g4 r tt semicolon_solid
          (omega arith) (list_read n v a e g4 hn hv last) in
    let behind_type =
      match_seq (sign b'/') accept lt (47 ∷ rest) g1 p3
      ∙ sign_read b'/' (match_pattern p3 accept) lt rest g1 refl
      ∙ match_seq tree_pattern accept (suc lt) rest g1 p4
      ∙ tree_none (match_pattern p4 accept) (suc lt) rest g1 (usual-NoDot s n v plus hs hn hv)
      ∙ match_seq sub_type_pattern accept (suc lt) rest g1 p5
      ∙ sub_type_read plus (match_pattern p5 accept) s t2 (suc lt) a g1 r hs place behind_sub in
    search_groups-first mime_pattern (usual t s plus n v) r (
      match_seq (Pattern.group 1 (some_of is_word_char)) accept 0 (usual t s plus n v) [] p2
      ∙ match_group (some_of is_word_char) (match_pattern p2 accept) 0 (usual t s plus n v) [] 1
      ∙ Run-greedy is_word_char k1 t (47 ∷ rest) 0 lt [] r ht.some_char ht.chars slash_closed
          (omega arith) behind_type)
