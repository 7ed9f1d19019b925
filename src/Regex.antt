-- ===== src/Regex.antt =====
-- The part of `std::regex` (ECMAScript grammar) that the program uses: sequences of characters,
-- classes, optional classes, starred classes, anchors and groups. The matcher backtracks and is
-- greedy; a search tries each start from the left. A group is the two marks at its ends.
pub mod Bounds
pub mod Language
pub mod Needs
pub mod Triples
pub mod Runs
pub mod First
pub mod Groups
pub mod Advance
pub mod Greedy
pub mod Stars
use extractor.Base.{
  ℕ, suc, ◌+◌, ◌==◌, Bool, true, false, not, ◌&&◌, Option, none, some, List, [], ◌∷◌, Bytes,
  if◌then◌else◌, is_space, slice, get_or,
}

pub data Item : Type 0 where
  begin end mark : Item
  one star opt : (ℕ → Bool) → Item

-- A match: its ends and the positions of the marks, all counted from the start of the line.
pub record Match : Type 0 where
  pub first : ℕ
  pub second : ℕ
  pub marks : List ℕ

-- What a matcher returns: the end of the match and the marks.
abbrev pub Reply : Type 0
Reply = Option (ℕ × List ℕ)

abbrev pub Matcher : Type 0
Matcher = ℕ → Bytes → Reply

or_else : Reply → Reply → Reply
or_else (some r) other = some r
or_else none other = other

add_mark : ℕ → Reply → Reply
add_mark p none = none
add_mark p (some (e, ms)) = some (e, p ∷ ms)

run_begin : Matcher → Matcher
run_begin k p xs = if p == 0 then k p xs else none

run_end : Matcher → Matcher
run_end k p [] = k p []
run_end k p (x ∷ xs) = none

run_one : (ℕ → Bool) → Matcher → Matcher
run_one c k p [] = none
run_one c k p (x ∷ xs) = if c x then k (suc p) xs else none

run_opt : (ℕ → Bool) → Matcher → Matcher
unfolding or_else
run_opt c k p [] = k p []
run_opt c k p (x ∷ xs) = if c x then or_else (k (suc p) xs) (k p (x ∷ xs)) else k p (x ∷ xs)

run_star : (ℕ → Bool) → Matcher → Matcher
unfolding or_else
run_star c k p [] = k p []
run_star c k p (x ∷ xs) =
    let further = run_star c k (suc p) xs in
    if c x then or_else further (k p (x ∷ xs)) else k p (x ∷ xs)

pub run : List Item → Matcher
unfolding add_mark run_begin run_end run_one run_opt run_star
run [] p xs = some (p, [])
run (Item.begin ∷ r) p xs = run_begin (run r) p xs
run (Item.end ∷ r) p xs = run_end (run r) p xs
run (Item.mark ∷ r) p xs = add_mark p (run r p xs)
run (Item.one c ∷ r) p xs = run_one c (run r) p xs
run (Item.opt c ∷ r) p xs = run_opt c (run r) p xs
run (Item.star c ∷ r) p xs = run_star c (run r) p xs

found : ℕ → Reply → Option Match → Option Match
found p (some (e, ms)) later = some (record { first = p; second = e; marks = ms })
found p none later = later

search_from : List Item → ℕ → Bytes → Option Match
unfolding run found
search_from r p [] = found p (run r p []) none
search_from r p (x ∷ xs) = let later = search_from r (suc p) xs in found p (run r p (x ∷ xs)) later

-- `std::regex_search(line, matches, r)`
unfoldable pub search_regex : List Item → Bytes → Option Match
unfolding search_from
search_regex r line = search_from r 0 line

-- `std::regex_search(line, r)`
unfoldable pub is_found : List Item → Bytes → Bool
unfolding search_regex
is_found r line = elim (search_regex r line) [ none ↦ false | some _ ↦ true ]

-- `matches[n].first - line.begin()`, where mark `i` opens group `n`
abbrev pub mark_at : Match → ℕ → ℕ
mark_at m i = get_or m.marks i 0

-- `matches[n]` as a string, where marks `i` and `j` open and close group `n`
abbrev pub group : Match → ℕ → ℕ → Bytes → Bytes
group m i j line = slice (mark_at m i) (mark_at m j) line

-- Items for a literal character, `\s*` and `.*`
abbrev pub lit : ℕ → Item
lit c = Item.one (λ x. x == c)

abbrev pub spaces : Item
spaces = Item.star is_space

abbrev pub any_text : Item
any_text = Item.star (λ x. not (x == 10) && not (x == 13))
