-- ===== src/SignalHandler.antt =====
-- libwm/unixsignalhandler.h and libwm/unixsignalhandler.cc: signals of the system are handed to the
-- event loop through a pipe. The pipe of the system is a parameter, and so is the notifier of Qt,
-- which calls `pipeActivated` where the pipe has something to read.
pub mod Order
use extractor.Base.{ℕ, ℤ, pos, negsuc, Bool, true, false, Option, none, some, List, [], ◌∷◌, ◌++◌}

-- `pipe`, `write` and `read` of the system for numbers; `none` is an error of the call.
pub record System : Type 1 where
  pub Pipe : Type 0
  pub create : Option Pipe
  pub write : ℤ → Pipe → Option Pipe
  pub read : Pipe → Option (ℤ × Pipe)
  -- Whether `sigaction` installs the handler for a signal
  pub installs : ℕ → Bool

module _ (system : System) where
  -- The static members with what the object emits: the pipe if it is open, whether the notifier is
  -- there, the signals that are mapped, and the signals that were emitted.
  pub record UnixSignalHandler : Type 0 where
    pub pipe : Option system.Pipe
    pub notifier : Bool
    pub mapped : List ℕ
    pub emitted : List ℤ

  -- `UnixSignalHandler()`; `none` means that the program ends with a message.
  unfoldable pub construct : UnixSignalHandler → Option UnixSignalHandler
  construct s = elim s.pipe [
    | some pipe ↦ some (record s { notifier = true })
    | none ↦ elim system.create [
      | none ↦ none
      | some pipe ↦ some (record s { pipe = some pipe; notifier = true })
    ]
  ]

  -- `~UnixSignalHandler()`
  unfoldable pub destroy : UnixSignalHandler → UnixSignalHandler
  destroy s = record s { pipe = none; notifier = false }

  -- `mapUnixSignal(unixSignalNumber)`; `none` means that the program ends with a message. The
  -- assertions on the number are left out.
  unfoldable pub map_unix_signal : ℕ → UnixSignalHandler → Option UnixSignalHandler
  map_unix_signal number s = elim (system.installs number) [
    | false ↦ none
    | true ↦ some (record s { mapped = s.mapped ++ number ∷ [] })
  ]

  -- `signalHandler(signal)`: a number that cannot be written is lost with a message.
  unfoldable pub signal_handler : ℕ → UnixSignalHandler → UnixSignalHandler
  signal_handler signal s = elim s.pipe [
    | none ↦ s
    | some pipe ↦ elim (system.write (pos signal) pipe) [
      | none ↦ s
      | some grown ↦ record s { pipe = some grown }
    ]
  ]

  -- `emit unixSignal(signal)` where the number is no negative one
  unfoldable pub emit_signal : ℤ → UnixSignalHandler → UnixSignalHandler
  emit_signal (pos signal) s = record s { emitted = s.emitted ++ pos signal ∷ [] }
  emit_signal (negsuc n) s = s

  -- `pipeActivated()`: where nothing can be read, the number stays -1.
  unfoldable pub pipe_activated : UnixSignalHandler → UnixSignalHandler
  unfolding emit_signal
  pipe_activated s = elim s.pipe [
    | none ↦ s
    | some pipe ↦ elim (system.read pipe) [
      | none ↦ emit_signal (negsuc 0) s
      | some (signal, rest) ↦ emit_signal signal (record s { pipe = some rest })
    ]
  ]
