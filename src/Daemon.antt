-- ===== src/Daemon.antt =====
-- internal/app/daemon.go: the services are applied in order, then the traffic service is watched.
pub mod Order
pub mod Hangs
use tcsss.Prelude.{
  ◌≡◌, ◌≢◌, Bool, true, false, Option, none, some, List, [], ◌∷◌, ◌++◌, if◌then◌else◌,
}
use tcsss.Text.Ops.{Text, bytes}
use tcsss.Errors.{GoError, plain, holds, is_canceled}

pub data Service : Type 0 where
  sysctl limits rlimit traffic : Service

-- How a call of a service ends, if it does.
pub data Ended : Type 0 where
  returns : Option GoError → Ended
  panics : Text → Ended
  never : Ended

-- The services given to `NewDaemon`: which are not nil, and how each call of `Apply` ends, which may
-- depend on the calls before it.
pub record Dependencies : Type 0 where
  pub present : Service → Bool
  pub apply : List Service → Service → Ended

-- Where `Run` is when the services have been applied.
pub data Progress : Type 0 where
  -- It has returned this error.
  stopped : GoError → Progress
  -- It waits in the call of a service.
  stuck : Progress
  -- All services are applied; the flag says that `Watch` was started.
  running : Bool → Progress

-- The recovered panic of `Run`.
abbrev pub daemon_panic : Text → GoError
daemon_panic text = plain (bytes "daemon panic: " ++ text)

-- What follows the call of a service: `next` where it returned nil.
abbrev pub after_call : List Service → List Service × Progress → Ended → List Service × Progress
after_call called next (returns none) = next
after_call called next (returns (some e)) = (called, stopped e)
after_call called next (panics text) = (called, stopped (daemon_panic text))
after_call called next never = (called, stuck)

module _ (deps : Dependencies) where
  -- The services called so far, and the progress.
  unfoldable pub apply_services : List Service → List Service → List Service × Progress
  apply_services called [] = (called, running (deps.present traffic))
  apply_services called (s ∷ rest) = elim (deps.present s) [
    | false ↦ apply_services called rest
    | true ↦
        after_call (called ++ (s ∷ [])) (apply_services (called ++ (s ∷ [])) rest)
          (deps.apply called s)
  ]

  -- `Run` up to its `select`, for a context that is not nil.
  unfoldable pub startup : List Service × Progress
  unfolding apply_services
  startup = apply_services [] (sysctl ∷ limits ∷ rlimit ∷ traffic ∷ [])

-- What `Watch` did by the time: it may still run.
pub data Watched : Type 0 where
  not_started watching : Watched
  ended : Option GoError → Watched

-- The error that the goroutine of `Watch` sends.
abbrev pub watch_error : Watched → Option GoError
watch_error (ended (some e)) = if holds is_canceled e then none else some e
watch_error _ = none

-- `Run` returns `e` after the `select`: `ctx` is the context's error, once it is done.
pub data Returns (ctx : Option GoError) (watch : Watched) (e : Option GoError) : Type 0 where
  watch_fails : (x : GoError) → watch_error watch ≡ some x → e ≡ some x → Returns ctx watch e
  context_done : ctx ≢ none → watch ≢ watching → e ≡ ctx → Returns ctx watch e

-- `Run`, called with a context that is not nil if `given`, returns `e`.
pub data RunReturns (deps : Dependencies) (given : Bool) (ctx : Option GoError) (watch : Watched)
    (e : Option GoError) : Type 0 where
  no_context_given :
      given ≡ false
      → e ≡ some (plain (bytes "context must not be nil"))
      → RunReturns deps given ctx watch e
  startup_stops :
      (x : GoError)
      → given ≡ true
      → (startup deps).1 ≡ stopped x
      → e ≡ some x
      → RunReturns deps given ctx watch e
  selects :
      (watches : Bool)
      → given ≡ true
      → (startup deps).1 ≡ running watches
      → (watches ≡ false → watch ≡ not_started)
      → Returns ctx watch e
      → RunReturns deps given ctx watch e
