-- ===== src/Tracer.antt =====
-- libwm/tracer.h and libwm/tracer.cc: the trace of the calls, indented by the nesting level.
pub mod Nesting
use extractor.Base.{
  ℕ, zero, suc, ◌+◌, ◌-◌, ◌%◌, ◌^◌, Bool, true, false, not, ◌&&◌, List, [], ◌∷◌, ◌++◌, Bytes, codes,
  ltb, if◌then◌else◌, to_string,
}

pub data TraceLevel : Type 0 where
  trace debug info warning error : TraceLevel

-- The order of the enumeration
unfoldable pub rank : TraceLevel → ℕ
rank TraceLevel.trace = 0
rank TraceLevel.debug = 1
rank TraceLevel.info = 2
rank TraceLevel.warning = 3
rank TraceLevel.error = 4

pub record Tracer : Type 0 where
  pub fixed : Bool
  pub name : Bytes
  pub level : TraceLevel
  pub insert_spaces : Bool
  pub insert_endl : Bool

-- The static members. `stream` names the stream that the trace goes to, and `written` is what the
-- streams were given, each text with its stream.
pub record Tracing : Type 0 where
  pub nesting_prefix : Bytes
  pub nesting_level : ℕ
  pub global_level : TraceLevel
  pub stream : ℕ
  pub written : List (ℕ × Bytes)

-- The initial values; the stream 0 is `std::clog`.
abbrev pub initial_tracing : Tracing
initial_tracing = record {
  nesting_prefix = codes "   ";
  nesting_level = 0;
  global_level = TraceLevel.trace;
  stream = 0;
  written = [];
}

entry_marker : Bytes
entry_marker = codes "-->"

exit_marker : Bytes
exit_marker = codes "<--"

abbrev pub emit : Bytes → Tracing → Tracing
emit text s = record s { written = s.written ++ (s.stream, text) ∷ [] }

unfoldable pub prefixes : ℕ → Bytes → Bytes
prefixes zero p = []
prefixes (suc n) p = p ++ prefixes n p

-- `mLevel < globalTraceLevel`
unfoldable pub is_silent : Tracer → Tracing → Bool
unfolding rank
is_silent t s = ltb (rank t.level) (rank s.global_level)

-- `print(marker, trailer)`
unfoldable pub print_marker : Bytes → Bytes → Tracer → Tracing → Tracing
unfolding is_silent prefixes
print_marker marker trailer t s =
    if is_silent t s
    then s
    else emit
        (marker
          ++ (prefixes s.nesting_level s.nesting_prefix ++ (t.name ++ (trailer ++ codes "\n"))))
        s

-- `Tracer(name, level)`: the counter of the levels is an `unsigned int`.
unfoldable pub enter : Bytes → TraceLevel → Tracing → Tracer × Tracing
unfolding entry_marker print_marker
enter name level s =
    let t : Tracer = record {
      fixed = false;
      name = name;
      level = level;
      insert_spaces = false;
      insert_endl = false;
    } in
    let s' = print_marker entry_marker [] t s in
    (t, record s' { nesting_level = (s'.nesting_level + 1) % 2 ^ 32 })

-- `trace(level, insertEndl)` and `notrace()`: the constructor that writes nothing
unfoldable pub trace_object : TraceLevel → Bool → Tracer
trace_object level insert_endl = record {
  fixed = true;
  name = [];
  level = level;
  insert_spaces = true;
  insert_endl = insert_endl;
}

unfoldable pub no_trace_object : Tracer
no_trace_object = record {
  fixed = true;
  name = [];
  level = TraceLevel.error;
  insert_spaces = false;
  insert_endl = false;
}

-- The first part of the destructor, with the microseconds that the timer counted
unfoldable pub leave_level : ℕ → Tracer → Tracing → Tracing
unfolding exit_marker print_marker to_string
leave_level us t s =
    if ltb 0 s.nesting_level && not t.fixed
    then print_marker exit_marker (codes " [us: " ++ (to_string us ++ codes "]")) t
        (record s { nesting_level = s.nesting_level - 1 })
    else s

-- `~Tracer()`
unfoldable pub leave : ℕ → Tracer → Tracing → Tracing
unfolding leave_level is_silent
leave us t s =
    let s' = leave_level us t s in
    if t.insert_endl && not (is_silent t s') then emit (codes "\n") s' else s'

-- `operator<<` of a tracer, with the text of the value
unfoldable pub put : Bytes → Tracer → Tracing → Tracing
unfolding is_silent prefixes
put value t s =
    if is_silent t s
    then s
    else emit
        (prefixes s.nesting_level s.nesting_prefix
          ++ (value ++ (if t.insert_spaces then codes " " else [])))
        s

-- The setters
unfoldable pub set_nesting_prefix : Bytes → Tracing → Tracing
set_nesting_prefix p s = record s { nesting_prefix = p }

unfoldable pub set_trace_level : TraceLevel → Tracing → Tracing
set_trace_level l s = record s { global_level = l }

unfoldable pub set_stream : ℕ → Tracing → Tracing
set_stream n s = record s { stream = n }
