-- ===== src/FileMagic/Answers.antt =====
-- libwm/filemagic.cc: what the parser of MIME types makes of the usual texts of libmagic.
use extractor.Base.{
  slice-append, slice-end, ℕ, suc, ◌+◌, ◌≡◌, refl, ◌∙◌, Bool, true, false, none, some, List, [],
  ◌∷◌, ◌++◌, arith, Bytes, length, length-append, append-nil, append_assoc, slice, drop, assign,
  bytes_key, nat_key, lookup, ◌==◌, is_space,
}
use extractor.Regex.{Item, Match, lit, spaces, run, search_regex, group}
use extractor.Regex.Groups.{Groups, group_text, search_groups}
use extractor.Regex.Stars.{run-stars, run-one, run-mark, run-nil, run-some, search_regex-first}
use extractor.FileMagic.{
  MimeType, is_word_char, is_name_char, parameter_regex, parameters_loop, mime_of, mime_parts,
  mime_pattern, parse_mime,
}
use extractor.FileMagic.Words.{IsWord, IsName, word-Stops, blank_space, equals_closed}
use extractor.FileMagic.Usual.{pluses, usual, usual_groups, usual_found}

drop-all : (xs : Bytes) → drop (length xs) xs ≡ []
drop-all [] = refl
drop-all (x ∷ xs) = drop-all xs

abbrev parameter_text : Bytes → Bytes → Bytes
parameter_text n v = 59 ∷ 32 ∷ (n ++ 61 ∷ v)

name_end :
    (v : Bytes) (p q : ℕ)
    → IsName v
    → q ≡ p + length v
    → run (Item.one is_name_char ∷ Item.star is_name_char ∷ Item.mark ∷ []) p v ≡ some (q, q ∷ [])
name_end v p q hv place =
    let read =
      run-some is_name_char (Item.mark ∷ []) v [] p q (q, q ∷ []) hv.some_char hv.chars tt place
        (run-mark [] q q [] [] (run-nil q [])) in
    rw (append-nil v) at read

abbrev name_items : List Item
name_items = Item.one is_name_char ∷ Item.star is_name_char ∷ Item.mark ∷ []

abbrev value_items : List Item
value_items = Item.mark ∷ lit b'=' ∷ Item.mark ∷ name_items

abbrev word_items : List Item
word_items = Item.one is_word_char ∷ Item.star is_word_char ∷ value_items

parameter_found :
    (n v : Bytes) (m e : ℕ)
    → IsWord n
    → IsName v
    → m ≡ 2 + length n
    → e ≡ suc m + length v
    → search_regex parameter_regex (parameter_text n v)
      ≡ some (record { first = 0; second = e; marks = 2 ∷ m ∷ suc m ∷ e ∷ [] })
unfolding parameter_regex
parameter_found n v m e hn hv word value =
    let named = name_end v (suc m) e hv value in
    let marked = run-mark name_items (suc m) e v (e ∷ []) named in
    let equals =
      run-mark (lit b'=' ∷ Item.mark ∷ name_items) m e (61 ∷ v) (suc m ∷ e ∷ []) (
        run-one (λ x. x == b'=') (Item.mark ∷ name_items) m 61 v (e, suc m ∷ e ∷ []) refl marked) in
    let worded = run-mark word_items 2 e (n ++ 61 ∷ v) (m ∷ suc m ∷ e ∷ []) (
      run-some is_word_char value_items n (61 ∷ v) 2 m _ hn.some_char hn.chars equals_closed word
        equals) in
    search_regex-first parameter_regex (parameter_text n v) e (2 ∷ m ∷ suc m ∷ e ∷ []) (
      run-one (λ x. x == b';') (spaces ∷ Item.mark ∷ word_items) 0 59 (32 ∷ (n ++ 61 ∷ v)) _ refl
        (run-stars is_space (Item.mark ∷ word_items) (32 ∷ []) (n ++ 61 ∷ v) 1 2 _ (blank_space, tt)
          (word-Stops n (61 ∷ v) hn) refl worded))

loop_rule :
    (fuel : ℕ) (text : Bytes) (m : Match)
    → search_regex parameter_regex text ≡ some m
    → drop m.second text ≡ []
    → parameters_loop (suc (suc fuel)) text [] ≡ some ((group m 0 1 text, group m 2 3 text) ∷ [])
unfolding parameters_loop assign
loop_rule fuel text m found over = rw (found, parameters_loop) (rw (over, parameters_loop) refl)

parameters_read :
    (n v : Bytes)
    → IsWord n
    → IsName v
    → parameters_loop (suc (length (parameter_text n v))) (parameter_text n v) []
      ≡ some ((n, v) ∷ [])
parameters_read n v hn hv =
    let m = 2 + length n in
    let e = suc m + length v in
    let whole : e ≡ length (parameter_text n v) = omega (arith, length-append n (61 ∷ v)) in
    let found = parameter_found n v m e hn hv refl refl in
    let name = slice-append (59 ∷ 32 ∷ []) n (61 ∷ v) 2 m refl refl in
    let front = length-append n (61 ∷ []) in
    let value =
      slice-end (59 ∷ 32 ∷ (n ++ 61 ∷ [])) v (suc m) e (omega (arith, front))
        (omega (arith, front)) in
    let value' = rw (append_assoc n (61 ∷ []) v) at value in
    loop_rule _ (parameter_text n v) _ found (rw whole (drop-all (parameter_text n v)))
    ∙ rw (name, value') refl

type_text : (t s n v : Bytes) (plus : Bool) → slice 0 (length t) (usual t s plus n v) ≡ t
type_text t s n v plus =
    slice-append [] t (47 ∷ (s ++ (pluses plus ++ parameter_text n v))) 0 (length t) refl
      (omega arith)

sub_type_text :
    (t s n v : Bytes) (plus : Bool) (a : ℕ)
    → a ≡ suc (length t) + length s + length (pluses plus)
    → slice (suc (length t)) a (usual t s plus n v) ≡ s ++ pluses plus
sub_type_text t s n v plus a place =
    let front = length-append t (47 ∷ []) in
    let sub = length-append s (pluses plus) in
    let middle =
      slice-append (t ++ 47 ∷ []) (s ++ pluses plus) (parameter_text n v) (suc (length t)) a
        (omega (arith, front)) (omega (arith, front, sub, place)) in
    rw
      (
        append_assoc t (47 ∷ []) ((s ++ pluses plus) ++ parameter_text n v),
        append_assoc s (pluses plus) (parameter_text n v),
      )
      at middle

list_text :
    (t s n v : Bytes) (plus : Bool) (a e : ℕ)
    → a ≡ suc (length t) + length s + length (pluses plus)
    → e ≡ a + (length n + length v + 3)
    → slice a e (usual t s plus n v) ≡ parameter_text n v
list_text t s n v plus a e place last =
    let front = length-append t (47 ∷ (s ++ pluses plus)) in
    let sub = length-append s (pluses plus) in
    let list = length-append n (61 ∷ v) in
    let back =
      slice-end (t ++ 47 ∷ (s ++ pluses plus)) (parameter_text n v) a e
        (omega (arith, front, sub, place)) (omega (arith, front, sub, list, place, last)) in
    rw
      (
        append_assoc t (47 ∷ (s ++ pluses plus)) (parameter_text n v),
        append_assoc s (pluses plus) (parameter_text n v),
      )
      at back

group_text-some :
    (k a b : ℕ) (gs : Groups) (text part : Bytes)
    → lookup k gs ≡ some (a, b)
    → slice a b text ≡ part
    → group_text k gs text ≡ part
unfolding group_text
group_text-some k a b gs text part found cut = rw (found, group_text) cut

group_text-none :
    (k : ℕ) (gs : Groups) (text : Bytes) → lookup k gs ≡ none → group_text k gs text ≡ []
unfolding group_text
group_text-none k gs text missing = rw (missing, group_text) refl

lookups :
    (lt ls a e : ℕ) (plus : Bool)
    → (lookup 1 (usual_groups lt ls plus a e) ≡ some (0, lt))
      × (lookup 3 (usual_groups lt ls plus a e) ≡ none)
      × (lookup 5 (usual_groups lt ls plus a e) ≡ some (suc lt, a))
      × (lookup 8 (usual_groups lt ls plus a e) ≡ none)
      × (lookup 9 (usual_groups lt ls plus a e) ≡ some (a, e))
unfolding lookup
lookups lt ls a e true = (refl, refl, refl, refl, refl)
lookups lt ls a e false = (refl, refl, refl, refl, refl)

mime_of_parts :
    (text : Bytes) (gs : Groups) (m : MimeType) (list : Bytes)
    → group_text 1 gs text ≡ m.type
    → group_text 3 gs text ≡ m.tree
    → group_text 5 gs text ≡ m.sub_type
    → group_text 8 gs text ≡ m.suffix
    → group_text 9 gs text ≡ list
    → parameters_loop (suc (length list)) list [] ≡ some m.parameters
    → mime_of text gs ≡ some m
unfolding mime_of mime_parts
mime_of_parts text gs m list e1 e3 e5 e8 e9 ps = rw (e9, ps, e1, e3, e5, e8) refl

parse_found :
    (text : Bytes) (e : ℕ) (gs : Groups)
    → search_groups mime_pattern text ≡ some (e, gs)
    → parse_mime text ≡ mime_of text gs
unfolding parse_mime
parse_found text e gs found = rw (found, parse_mime) refl

-- The usual text of libmagic, `type/subtype; name=value` with a subtype that may end in `++`, is
-- parsed into its parts, with the one parameter, no tree and no suffix. Type and name are words,
-- subtype and value may hold dashes.
pub parse_mime-usual :
    (t s n v : Bytes) (plus : Bool)
    → IsWord t
    → IsName s
    → IsWord n
    → IsName v
    → parse_mime (usual t s plus n v)
      ≡ some (record {
        type = t;
        tree = [];
        sub_type = s ++ pluses plus;
        suffix = [];
        parameters = (n, v) ∷ [];
      })
parse_mime-usual t s n v plus ht hs hn hv =
    let a = suc (length t) + length s + length (pluses plus) in
    let e = a + (length n + length v + 3) in
    let gs = usual_groups (length t) (length s) plus a e in
    let text = usual t s plus n v in
    let (l1, l3, l5, l8, l9) = lookups (length t) (length s) a e plus in
    parse_found text e gs (usual_found t s n v plus a e ht hs hn hv refl refl)
    ∙ mime_of_parts text gs _ (parameter_text n v)
        (group_text-some 1 0 (length t) gs text t l1 (type_text t s n v plus))
        (group_text-none 3 gs text l3)
        (group_text-some 5 (suc (length t)) a gs text (s ++ pluses plus) l5
          (sub_type_text t s n v plus a refl))
        (group_text-none 8 gs text l8)
        (group_text-some 9 a e gs text (parameter_text n v) l9
          (list_text t s n v plus a e refl refl))
        (parameters_read n v hn hv)
