-- ===== src/Tracer/Nesting.antt =====
-- libwm/tracer.h and libwm/tracer.cc: the trace of calls that nest.
use extractor.Base.{
  ℕ, suc, ◌+◌, ◌-◌, ◌%◌, ◌^◌, ◌<◌, ◌≡◌, refl, sym, ◌∙◌, Bool, true, false, List, [], ◌∷◌, ◌++◌,
  Bytes, codes, ltb, if◌then◌else◌, to_string, arith, append_assoc, append-nil, and_false,
  Bool-cases, inl, inr,
}
use Prim.Native.Nat.{max}
use extractor.Tracer.{
  TraceLevel, rank, Tracer, Tracing, emit, prefixes, is_silent, print_marker, entry_marker,
  exit_marker, enter, trace_object, leave_level, leave, put,
}

-- What happens as far as the trace sees it: a function with a tracer of its own is called, which
-- takes some microseconds, or a statement writes values; then the rest.
pub data Events : Type 0 where
  done : Events
  call : Bytes → TraceLevel → ℕ → Events → Events → Events
  say : TraceLevel → Bool → List Bytes → Events → Events

unfoldable pub put_all : List Bytes → Tracer → Tracing → Tracing
unfolding put
put_all [] t s = s
put_all (value ∷ values) t s = put_all values t (put value t s)

-- The objects are destroyed at the ends of their scopes.
unfoldable pub run_events : Events → Tracing → Tracing
run_events Events.done s = s
run_events (Events.call name level us body rest) s =
    let (t, s1) = enter name level s in run_events rest (leave us t (run_events body s1))
run_events (Events.say level insert_endl values rest) s =
    let t = trace_object level insert_endl in run_events rest (leave 0 t (put_all values t s))

-- The number of calls that are open at once
unfoldable pub depth : Events → ℕ
depth Events.done = 0
depth (Events.call name level us body rest) = max (suc (depth body)) (depth rest)
depth (Events.say level insert_endl values rest) = depth rest

-- The texts of a level that is not below the global one, which is the first argument
abbrev pub heard : TraceLevel → TraceLevel → List Bytes → List Bytes
heard g level texts = if ltb (rank level) (rank g) then [] else texts

abbrev pub marked : Bytes → Bytes → ℕ → Bytes → Bytes → Bytes
marked p marker n name trailer = marker ++ (prefixes n p ++ (name ++ (trailer ++ codes "\n")))

abbrev pub said : Bytes → ℕ → List Bytes → List Bytes
said p n [] = []
said p n (v ∷ vs) = (prefixes n p ++ (v ++ codes " ")) ∷ said p n vs

abbrev pub time_of : ℕ → Bytes
time_of us = codes " [us: " ++ (to_string us ++ codes "]")

module _ (p : Bytes) (g : TraceLevel) where
  -- The texts that events make with `n` calls open
  unfoldable pub texts : ℕ → Events → List Bytes
  texts n Events.done = []
  texts n (Events.call name level us body rest) =
      heard g level (marked p (codes "-->") n name [] ∷ [])
      ++ (texts (n + 1) body
          ++ (heard g level (marked p (codes "<--") n name (time_of us) ∷ []) ++ texts n rest))
  texts n (Events.say level insert_endl values rest) =
      heard g level (said p n values ++ (if insert_endl then codes "\n" ∷ [] else []))
      ++ texts n rest

abbrev pub tagged : ℕ → List Bytes → List (ℕ × Bytes)
tagged stream [] = []
tagged stream (t ∷ ts) = (stream, t) ∷ tagged stream ts

-- The texts go to the stream of the trace; nothing else changes.
abbrev pub with_texts : List Bytes → Tracing → Tracing
with_texts ts s = record s { written = s.written ++ tagged s.stream ts }

tagged-append : (n : ℕ) (a b : List Bytes) → tagged n (a ++ b) ≡ tagged n a ++ tagged n b
tagged-append n [] b = refl
tagged-append n (t ∷ a) b = rw (tagged-append n a b) refl

with_texts-append :
    (a b : List Bytes) (s : Tracing) → with_texts b (with_texts a s) ≡ with_texts (a ++ b) s
with_texts-append a b s =
    rw (tagged-append s.stream a b, append_assoc s.written (tagged s.stream a) (tagged s.stream b))
      refl

abbrev named : Bytes → TraceLevel → Tracer
named name level = record {
  fixed = false;
  name = name;
  level = level;
  insert_spaces = false;
  insert_endl = false;
}

print_marker_lem :
    (marker trailer : Bytes) (t : Tracer) (s : Tracing)
    → print_marker marker trailer t s
      ≡ with_texts
          (heard s.global_level t.level
            (marked s.nesting_prefix marker s.nesting_level t.name trailer ∷ []))
          s
unfolding print_marker is_silent
print_marker_lem marker trailer t s = elim (Bool-cases (ltb (rank t.level) (rank s.global_level))) [
  | inl silent ↦ rw silent (rw (append-nil s.written) refl)
  | inr loud ↦ rw loud refl
]

enter_lem :
    (name : Bytes) (level : TraceLevel) (s : Tracing)
    → s.nesting_level + 1 < 2 ^ 32
    → enter name level s ≡ (
      named name level,
      record (with_texts
          (heard s.global_level level
            (marked s.nesting_prefix (codes "-->") s.nesting_level name [] ∷ []))
          s) { nesting_level = s.nesting_level + 1 },
    )
unfolding enter entry_marker
enter_lem name level s fits =
    let whole : (s.nesting_level + 1) % 2 ^ 32 ≡ s.nesting_level + 1 = omega arith in
    rw (print_marker_lem (codes "-->") [] (named name level) s) (rw whole refl)

leave_named :
    (name : Bytes) (level : TraceLevel) (us : ℕ) (s : Tracing) (n : ℕ)
    → s.nesting_level ≡ n + 1
    → leave us (named name level) s
      ≡ with_texts
          (heard s.global_level level
            (marked s.nesting_prefix (codes "<--") n name (time_of us) ∷ []))
          (record s { nesting_level = n })
unfolding leave leave_level exit_marker
leave_named name level us s n open_call =
    let some_level : ltb 0 s.nesting_level ≡ true = ground arith in
    let one_less : s.nesting_level - 1 ≡ n = omega arith in
    rw (some_level) (
      rw one_less (
        print_marker_lem (codes "<--") (time_of us) (named name level)
          (record s { nesting_level = n })))

with_texts-nil : (s : Tracing) → with_texts [] s ≡ s
with_texts-nil s = rw (append-nil s.written) refl

run_done : (s : Tracing) → run_events Events.done s ≡ s
unfolding run_events
run_done s = refl

put_steps :
    (value : Bytes) (level : TraceLevel) (insert_endl : Bool) (s : Tracing)
    → ltb (rank level) (rank s.global_level) ≡ false
    → put value (trace_object level insert_endl) s
      ≡ emit (prefixes s.nesting_level s.nesting_prefix ++ (value ++ codes " ")) s
unfolding put is_silent trace_object
put_steps value level insert_endl s loud = rw loud refl

put_all_loud :
    (values : List Bytes) (level : TraceLevel) (insert_endl : Bool) (s : Tracing)
    → ltb (rank level) (rank s.global_level) ≡ false
    → put_all values (trace_object level insert_endl) s
      ≡ with_texts (said s.nesting_prefix s.nesting_level values) s
unfolding put_all
put_all_loud [] level insert_endl s loud = rw (append-nil s.written) refl
put_all_loud (v ∷ values) level insert_endl s loud =
    let text = prefixes s.nesting_level s.nesting_prefix ++ (v ++ codes " ") in
    rw (put_steps v level insert_endl s loud) (
      put_all_loud values level insert_endl (emit text s) loud
      ∙ with_texts-append (text ∷ []) (said s.nesting_prefix s.nesting_level values) s)

put_all_silent :
    (values : List Bytes) (level : TraceLevel) (insert_endl : Bool) (s : Tracing)
    → ltb (rank level) (rank s.global_level) ≡ true
    → put_all values (trace_object level insert_endl) s ≡ s
unfolding put_all put is_silent trace_object
put_all_silent [] level insert_endl s silent = refl
put_all_silent (v ∷ values) level insert_endl s silent =
    rw silent (put_all_silent values level insert_endl s silent)

leave_fixed :
    (level : TraceLevel) (insert_endl : Bool) (s : Tracing)
    → leave 0 (trace_object level insert_endl) s
      ≡ with_texts (heard s.global_level level (if insert_endl then codes "\n" ∷ [] else [])) s
unfolding leave leave_level trace_object is_silent
leave_fixed level true s = elim (Bool-cases (ltb (rank level) (rank s.global_level))) [
  | inl silent ↦ rw (and_false (ltb 0 s.nesting_level), silent) (rw (append-nil s.written) refl)
  | inr loud ↦ rw (and_false (ltb 0 s.nesting_level), loud) refl
]
leave_fixed level false s = elim (Bool-cases (ltb (rank level) (rank s.global_level))) [
  | inl silent ↦ rw (and_false (ltb 0 s.nesting_level), silent) (rw (append-nil s.written) refl)
  | inr loud ↦ rw (and_false (ltb 0 s.nesting_level), loud) (rw (append-nil s.written) refl)
]

say_texts :
    (level : TraceLevel) (insert_endl : Bool) (values : List Bytes) (s : Tracing)
    → leave 0 (trace_object level insert_endl) (put_all values (trace_object level insert_endl) s)
      ≡ with_texts
          (heard s.global_level level (
            said s.nesting_prefix s.nesting_level values
            ++ (if insert_endl then codes "\n" ∷ [] else [])))
          s
say_texts level insert_endl values s = elim (Bool-cases (ltb (rank level) (rank s.global_level))) [
  | inl silent ↦
      rw (put_all_silent values level insert_endl s silent)
        (leave_fixed level insert_endl s ∙ rw silent refl)
  | inr loud ↦
      rw (put_all_loud values level insert_endl s loud)
        (leave_fixed level insert_endl _ ∙ rw loud (with_texts-append _ _ s))
]

say_rule :
    (level : TraceLevel) (insert_endl : Bool) (values : List Bytes) (rest : Events) (s : Tracing)
    → run_events (Events.say level insert_endl values rest) s
      ≡ run_events rest (
          leave 0
            (trace_object level insert_endl)
            (put_all values (trace_object level insert_endl) s))
unfolding run_events
say_rule level insert_endl values rest s = refl

call_rule :
    (name : Bytes) (level : TraceLevel) (us : ℕ) (body rest : Events) (t : Tracer)
    (s s1 s2 s3 : Tracing)
    → enter name level s ≡ (t, s1)
    → run_events body s1 ≡ s2
    → leave us t s2 ≡ s3
    → run_events (Events.call name level us body rest) s ≡ run_events rest s3
unfolding run_events
call_rule name level us body rest t s s1 s2 s3 entered inside left = rw (entered, inside, left) refl

-- The events add their texts, indented by the open calls, to the stream of the trace, and leave the
-- nesting level as it was, where the counter of the levels does not overflow.
pub run_events-texts :
    (es : Events) (s : Tracing)
    → s.nesting_level + depth es < 2 ^ 32
    → run_events es s ≡ with_texts (texts s.nesting_prefix s.global_level s.nesting_level es) s
unfolding depth texts
run_events-texts Events.done s fits = run_done s ∙ sym (with_texts-nil s)
run_events-texts (Events.call name level us body rest) s fits =
    let n = s.nesting_level in
    let g = s.global_level in
    let p = s.nesting_prefix in
    let front = heard g level (marked p (codes "-->") n name [] ∷ []) in
    let back = heard g level (marked p (codes "<--") n name (time_of us) ∷ []) in
    let inner = texts p g (n + 1) body in
    let s1 = record (with_texts front s) { nesting_level = n + 1 } in
    let s3 = with_texts back (with_texts inner (with_texts front s)) in
    call_rule name level us body rest (named name level) s s1 (with_texts inner s1) s3
      (enter_lem name level s (omega arith)) (run_events-texts body s1 (omega arith))
      (leave_named name level us (with_texts inner s1) n refl)
    ∙ run_events-texts rest s3 (omega arith)
    ∙ with_texts-append back (texts p g n rest) (with_texts inner (with_texts front s))
    ∙ with_texts-append inner (back ++ texts p g n rest) (with_texts front s)
    ∙ with_texts-append front (inner ++ (back ++ texts p g n rest)) s
run_events-texts (Events.say level insert_endl values rest) s fits =
    say_rule level insert_endl values rest s
    ∙ rw (say_texts level insert_endl values s)
        (run_events-texts rest _ (omega arith) ∙ with_texts-append _ _ s)
