-- ===== src/Tests/Parts.antt =====
-- Optional values, MIME types, signals and the command line of `avrasmopt` at concrete values.
use extractor.Base.{
  ℕ, ◌≡◌, ◌↔◌, refl, true, false, ℤ, pos, none, some, List, [], ◌∷◌, ◌++◌, Bytes, Dict, codes,
  is_space, is_digit, lookup, bytes_key, nat_key,
}
use extractor.Optional.{Optional, empty_optional, optional_eq}
use extractor.Regex.Groups.{search_groups, group_text}
use extractor.FileMagic.Total.{parse_mime-ParsedAs}
use extractor.FileMagic.{
  parse_mime, mime_pattern, is_word_char, is_name_char, MimeType, empty_mime, mime_eq,
}
use extractor.FileMagic.Equality.{mime_eq_iff}
use extractor.SignalHandler.{System, UnixSignalHandler}
use extractor.SignalHandler.Order.{IsPipe, Event, raised, activated, run, run_order, Added}

abbrev missing : Optional ℕ
missing = empty_optional 0

-- A missing value is not equal to itself.
optional_eq-missing : optional_eq missing missing ≡ false
unfolding optional_eq
optional_eq-missing = refl

abbrev plain_text : MimeType
plain_text = record empty_mime { type = codes "text"; sub_type = codes "plain" }

mime_eq_iff_example : (mime_eq plain_text empty_mime ≡ true) ↔ (plain_text ≡ empty_mime)
mime_eq_iff_example = mime_eq_iff plain_text empty_mime

-- A pipe as a list
abbrev queue : System
queue = record {
  Pipe = List ℤ;
  create = some [];
  write = λ n q. some (q ++ n ∷ []);
  read = λ q. elim q [ [] ↦ none | n ∷ rest ↦ some (n, rest) ];
  installs = λ n. true;
}

list_idle : (q : List ℤ) → queue.read q ≡ none → q ≡ []
list_idle [] h = refl
list_idle (n ∷ q) h = cc

list_next : (n : ℤ) (q r : List ℤ) → queue.read q ≡ some (n, r) → q ≡ n ∷ r
list_next n [] r h = cc
list_next n (m ∷ q) r h = cc

abbrev queue_pipe : IsPipe queue
queue_pipe = record {
  queued = λ q. q;
  room = λ n q. (q ++ n ∷ [], refl, refl);
  idle = list_idle;
  next = list_next;
}

abbrev listening : UnixSignalHandler queue
listening = record { pipe = some []; notifier = true; mapped = []; emitted = [] }

abbrev two_signals : List Event
two_signals = raised 2 ∷ activated ∷ activated ∷ raised 15 ∷ []

run_order_example :
    Added queue queue_pipe listening
      (pos 2 ∷ pos 15 ∷ [])
      (run queue queue_pipe two_signals listening)
run_order_example =
    run_order queue queue_pipe two_signals listening
      (record { pipe = []; is_open = refl; signals = tt })

parse_mime-ParsedAs_example :
    (ps : Dict Bytes Bytes) × (parse_mime (codes "text/x-c; a=b")
      ≡ some (record empty_mime { type = codes "text"; sub_type = codes "x-c"; parameters = ps }))
unfolding search_groups mime_pattern is_space is_digit group_text lookup is_word_char is_name_char
parse_mime-ParsedAs_example = parse_mime-ParsedAs (codes "text/x-c; a=b")
