-- ===== src/Main/Signals.antt =====
-- cmd/tcsss/main.go, `signalContext`: the context that a signal cancels.
use tcsss.Prelude.{Bool, true, false, Option, none, some, List, [], ◌∷◌, M, if◌then◌else◌}
use tcsss.Errors.{GoError, canceled}

-- The signals given to `signal.Notify`.
pub data Signal : Type 0 where
  sigint sigterm sighup : Signal

pub record SignalContext : Type 0 where
  -- `cancel` was called.
  pub is_canceled : Bool
  -- The program handles the signals: `signal.Stop` was not called yet.
  pub notified : Bool

-- At the end of `signalContext`.
abbrev pub signal_context : SignalContext
signal_context = record { is_canceled = false; notified = true }

pub data Effect : Type 0 where
  -- The goroutine calls `cancel` and ends, which stops the handling of signals.
  cancels : Effect
  -- The signal is not handled any more: its default action ends the process.
  kills : Effect

-- A signal arrives; the goroutine has run before the next one.
unfoldable pub receive_signal : Signal → M SignalContext Effect
receive_signal sig c =
    if c.notified then (cancels, record { is_canceled = true; notified = false }) else (kills, c)

-- The signals that arrive, up to one that kills the process, and whether one does.
unfoldable pub receive_signals : List Signal → M SignalContext Bool
unfolding receive_signal
receive_signals [] c = (false, c)
receive_signals (sig ∷ rest) c =
    let later = receive_signals rest (receive_signal sig c).1 in
    elim (receive_signal sig c).0 [ kills ↦ (true, c) | cancels ↦ later ]

-- `ctx.Err()`
abbrev pub err_of_context : SignalContext → Option GoError
err_of_context c = if c.is_canceled then some canceled else none
