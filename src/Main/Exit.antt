-- ===== src/Main/Exit.antt =====
-- cmd/tcsss/main.go, `main` to its end: the exit status.
use tcsss.Prelude.{
  ℕ, ◌≡◌, ◌≢◌, refl, sym, ◌∙◌, Bool, true, false, Option, none, some, List, if◌then◌else◌,
}
use tcsss.Text.Ops.{Text}
use tcsss.Errors.{GoError}
use tcsss.Traffic.Env.{ok, err}
use tcsss.System.{System, Log}
use tcsss.Double.{Double}
use tcsss.Daemon.{
  Service, Dependencies, Watched, Returns, watch_fails, context_done, RunReturns, no_context_given,
  startup_stops, selects,
}
use tcsss.Main.{Services, main}
use tcsss.Main.Signals.{Signal, signal_context, receive_signals, err_of_context}

-- What `main` does with the result of `Run`: `os.Exit(1)`, or its own return.
abbrev pub exit_status : Option GoError → ℕ
exit_status none = 0
exit_status (some e) = 1

-- `daemon_of` gives the behaviour of the services that `main` has made. What `flag.Parse` does is the
-- parameter `flags`: it returns, or ends the program with a status.
module _ {W : Type 0} (d : Double W) (message : GoError → Text) (system : System)
    (daemon_of : Services → Dependencies) where
  -- `main`, started with the three texts and the log of earlier calls, ends with the status `code`, when
  -- the signals have arrived; `panicked` where a panic that nothing recovers ends it, of `main` before
  -- `Run` or of another goroutine.
  pub data Exits (flags : Option ℕ) (conf_flag mode_flag legacy_arg : Text) (log : Log)
      (signals : List Signal) (panicked : Bool) (code : ℕ) : Type 0 where
    flags_end :
        flags ≡ some code
        → panicked ≡ false
        → Exits flags conf_flag mode_flag legacy_arg log signals panicked code
    -- The Go runtime's status.
    panics :
        flags ≡ none
        → panicked ≡ true
        → code ≡ 2
        → Exits flags conf_flag mode_flag legacy_arg log signals panicked code
    refused :
        (e : GoError)
        → (main d message system conf_flag mode_flag legacy_arg log).0 ≡ err e
        → flags ≡ none
        → panicked ≡ false
        → code ≡ exit_status (some e)
        → Exits flags conf_flag mode_flag legacy_arg log signals panicked code
    ran :
        (services : Services) (watch : Watched) (e : Option GoError)
        → (main d message system conf_flag mode_flag legacy_arg log).0 ≡ ok services
        → ((s : Service) → (daemon_of services).present s ≡ true)
        → (receive_signals signals signal_context).0 ≡ false
        → RunReturns
            (daemon_of services)
            true
            (err_of_context (receive_signals signals signal_context).1)
            watch
            e
        → flags ≡ none
        → panicked ≡ false
        → code ≡ exit_status e
        → Exits flags conf_flag mode_flag legacy_arg log signals panicked code

some_is_none : {e : Option GoError} {x : GoError} → e ≡ some x → e ≢ none
some_is_none h n = cc

Returns-some :
    {ctx : Option GoError} {watch : Watched} {e : Option GoError} → Returns ctx watch e → e ≢ none
Returns-some (watch_fails x w h) n = some_is_none h n
Returns-some (context_done c w h) n = c (sym h ∙ n)

RunReturns-some :
    {deps : Dependencies} {given : Bool} {ctx : Option GoError} {watch : Watched}
    {e : Option GoError}
    → RunReturns deps given ctx watch e
    → e ≢ none
RunReturns-some (no_context_given g h) n = some_is_none h n
RunReturns-some (startup_stops x g r h) n = some_is_none h n
RunReturns-some (selects b g r w h) n = Returns-some h n

exit_status-one : (e : Option GoError) → e ≢ none → exit_status e ≡ 1
exit_status-one none h = absurd (h refl)
exit_status-one (some e) h = refl

module _ {W : Type 0} (d : Double W) (message : GoError → Text) (system : System)
    (daemon_of : Services → Dependencies) where
  -- Once `flag.Parse` has returned, whatever the flags, the machine and the services are: where `main`
  -- ends by itself its exit status is 1, or 2 where a panic ends it. It is never 0, also where `Run`
  -- returned because a signal asked the program to end.
  pub Exits-one :
      {flags : Option ℕ} {conf_flag mode_flag legacy_arg : Text} {log : Log} {signals : List Signal}
      {panicked : Bool} {code : ℕ}
      → flags ≡ none
      → Exits d message system daemon_of flags conf_flag mode_flag legacy_arg log signals panicked
          code
      → code ≡ (if panicked then 2 else 1)
  Exits-one f (flags_end h p) = cc
  Exits-one f (panics h p c) = rw p c
  Exits-one f (refused e r h p c) = rw p c
  Exits-one f (ran services watch e r present a run h p c) =
      rw p (c ∙ exit_status-one e (RunReturns-some run))
