-- ===== src/SignalHandler/Order.antt =====
-- libwm/unixsignalhandler.cc: the signals that are raised against those that are emitted.
use mathlib.Core.Path.{subst}
use extractor.Base.{
  ℕ, ℤ, pos, negsuc, ◌≡◌, refl, sym, ◌∙◌, none, some, List, [], ◌∷◌, ◌++◌, append_assoc, append-nil,
  All, All-append, Option-cases, inl, inr,
}
use extractor.SignalHandler.{System, UnixSignalHandler, signal_handler, emit_signal, pipe_activated}

-- A pipe of the system hands out the numbers in the order in which they were written, and has room
-- for them; `queued` are the numbers that it holds.
pub record IsPipe (system : System) : Type 0 where
  pub queued : system.Pipe → List ℤ
  pub room :
      (n : ℤ) (q : system.Pipe)
      → (r : system.Pipe) × (system.write n q ≡ some r) × (queued r ≡ queued q ++ n ∷ [])
  pub idle : (q : system.Pipe) → system.read q ≡ none → queued q ≡ []
  pub next : (n : ℤ) (q r : system.Pipe) → system.read q ≡ some (n, r) → queued q ≡ n ∷ queued r

-- What happens to the program: a signal arrives, or the event loop activates the notifier.
pub data Event : Type 0 where
  raised : ℕ → Event
  activated : Event

module _ (system : System) (pipes : IsPipe system) where
  unfoldable pub run : List Event → UnixSignalHandler system → UnixSignalHandler system
  unfolding signal_handler pipe_activated
  run [] s = s
  run (raised n ∷ events) s = run events (signal_handler system n s)
  run (activated ∷ events) s = run events (pipe_activated system s)

  abbrev pub waiting : UnixSignalHandler system → List ℤ
  waiting s = elim s.pipe [ none ↦ [] | some q ↦ pipes.queued q ]

abbrev pub IsSignal : ℤ → Type 0
IsSignal (pos n) = Unit
IsSignal (negsuc n) = ⊥

abbrev pub all_raised : List Event → List ℤ
all_raised [] = []
all_raised (raised n ∷ events) = pos n ∷ all_raised events
all_raised (activated ∷ events) = all_raised events

module _ (system : System) (pipes : IsPipe system) where
  -- The pipe is open and holds signals only.
  pub record IsReady (s : UnixSignalHandler system) : Type 0 where
    pub pipe : system.Pipe
    pub is_open : s.pipe ≡ some pipe
    pub signals : All IsSignal (pipes.queued pipe)

  abbrev pub Added : UnixSignalHandler system → List ℤ → UnixSignalHandler system → Type 0
  Added s more t =
      IsReady t
      × (t.emitted ++ waiting system pipes t ≡ (s.emitted ++ waiting system pipes s) ++ more)

  raised_Added :
      (n : ℕ) (s : UnixSignalHandler system)
      → IsReady s
      → Added s (pos n ∷ []) (signal_handler system n s)
  unfolding signal_handler
  raised_Added n s ready =
      let (r, written, grown) = pipes.room (pos n) ready.pipe in
      rw (ready.is_open, signal_handler)
        (rw (written, signal_handler)
          (
            record {
              pipe = r;
              is_open = refl;
              signals = rw grown (
                  All-append IsSignal (pipes.queued ready.pipe) (pos n ∷ []) ready.signals
                    (tt, tt));
            },
            rw grown (sym (append_assoc s.emitted (pipes.queued ready.pipe) (pos n ∷ []))),
          ))

  unchanged_Added : (s : UnixSignalHandler system) → IsReady s → Added s [] s
  unchanged_Added s ready = (ready, sym (append-nil (s.emitted ++ waiting system pipes s)))

  read_Added :
      (n : ℤ) (r : system.Pipe) (s : UnixSignalHandler system) (ready : IsReady s)
      → pipes.queued ready.pipe ≡ n ∷ pipes.queued r
      → Added s [] (emit_signal system n (record s { pipe = some r }))
  unfolding emit_signal
  read_Added (pos n) r s ready front =
      let signals : All IsSignal (pos n ∷ pipes.queued r) =
        subst (λ qs. All IsSignal qs) front ready.signals in
      (
        record { pipe = r; is_open = refl; signals = signals.1 },
        rw (ready.is_open, front)
            (append_assoc s.emitted (pos n ∷ []) (pipes.queued r)
              ∙ sym (append-nil (s.emitted ++ pos n ∷ pipes.queued r))),
      )
  read_Added (negsuc n) r s ready front =
      let signals : All IsSignal (negsuc n ∷ pipes.queued r) =
        subst (λ qs. All IsSignal qs) front ready.signals in
      elim signals.0 [ ]

  activated_none :
      (s : UnixSignalHandler system) (q : system.Pipe)
      → s.pipe ≡ some q
      → system.read q ≡ none
      → pipe_activated system s ≡ s
  unfolding pipe_activated emit_signal
  activated_none s q is_open nothing =
      rw (is_open, pipe_activated) (rw (nothing, pipe_activated) cc)

  activated_some :
      (s : UnixSignalHandler system) (q r : system.Pipe) (n : ℤ)
      → s.pipe ≡ some q
      → system.read q ≡ some (n, r)
      → pipe_activated system s ≡ emit_signal system n (record s { pipe = some r })
  unfolding pipe_activated
  activated_some s q r n is_open read =
      rw (is_open, pipe_activated) (rw (read, pipe_activated) refl)

  activated_Added :
      (s : UnixSignalHandler system) → IsReady s → Added s [] (pipe_activated system s)
  activated_Added s ready = elim (Option-cases (system.read ready.pipe)) [
    | inl nothing ↦ rw (activated_none s ready.pipe ready.is_open nothing) (unchanged_Added s ready)
    | inr ((n, r), read) ↦
        rw (activated_some s ready.pipe r n ready.is_open read)
          (read_Added n r s ready (pipes.next n ready.pipe r read))
  ]

  -- Where the pipe is open and has room, the signals that were emitted, followed by those that still
  -- wait in the pipe, are the signals that were raised, each once and in their order, whatever the
  -- order of the arrivals and the activations is.
  pub run_order :
      (events : List Event) (s : UnixSignalHandler system)
      → IsReady s
      → Added s (all_raised events) (run system pipes events s)
  unfolding run
  run_order [] s ready = unchanged_Added s ready
  run_order (raised n ∷ events) s ready =
      let (ready', now) = raised_Added n s ready in
      let (done, later) = run_order events (signal_handler system n s) ready' in
      (
        done,
        later
            ∙ rw now (
                append_assoc (s.emitted ++ waiting system pipes s) (pos n ∷ [])
                  (all_raised events)),
      )
  run_order (activated ∷ events) s ready =
      let (ready', now) = activated_Added s ready in
      let (done, later) = run_order events (pipe_activated system s) ready' in
      (done, later ∙ rw (now, append-nil (s.emitted ++ waiting system pipes s)) refl)
