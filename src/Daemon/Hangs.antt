-- ===== src/Daemon/Hangs.antt =====
-- The daemon with the shaper as its traffic service: what follows once a link is listed.
use tcsss.Prelude.{
  ◌≡◌, ◌≢◌, ◌⊎◌, refl, inl, inr, Bool, true, false, Option, none, some, List, [], ◌∷◌, keep, any,
  arith,
}
use tcsss.Text.Ops.{Text}
use tcsss.Errors.{GoError}
use tcsss.Traffic.Env.{Env, ok, Link, Shaper, call}
use tcsss.Traffic.Commands.{Message}
use tcsss.Traffic.Profiles.{ProfileSet}
use tcsss.Traffic.Shaper.Apply.{list_and_prepare_links, ApplyAll}
use tcsss.Traffic.Shaper.Apply.Returns.{ApplyInterfaces-returns}
use tcsss.Route.Optimizer.{Optimizer}
use tcsss.Route.Optimize.{optimize}
use tcsss.Daemon.{
  Service, sysctl, limits, rlimit, traffic, Ended, returns, panics, never, Dependencies, Progress,
  stopped, running, daemon_panic, startup, Watched, RunReturns, no_context_given, startup_stops,
  selects,
}
use tcsss.Daemon.Order.{
  Passed, start, pass, Outcome, all_applied, stops, Ends, order, startup-Outcome,
}

abbrev is_traffic : Service → Bool
is_traffic traffic = true
is_traffic _ = false

Ends-stopped :
    (r : Ended) (q : Progress) (x : GoError)
    → Ends r q
    → q ≡ stopped x
    → (r ≡ returns (some x)) ⊎ ((text : Text) × (r ≡ panics text) × (x ≡ daemon_panic text))
Ends-stopped (returns none) q x h k = absurd h
Ends-stopped (returns (some e)) q x h k = inl (cc)
Ends-stopped (panics text) q x h k = inr (text, refl, cc)
Ends-stopped never q x h k = cc

Ends-running : (r : Ended) (q : Progress) (b : Bool) → Ends r q → q ≢ running b
Ends-running (returns none) q b h k = absurd h
Ends-running (returns (some e)) q b h k = cc
Ends-running (panics text) q b h k = cc
Ends-running never q b h k = cc

module _ (deps : Dependencies) where
  traffic_returned :
      (called todo : List Service)
      → any is_traffic todo ≡ true
      → Passed deps called todo
      → (before : List Service) × (deps.apply before traffic ≡ returns none)
  traffic_returned called [] h start = cc
  traffic_returned called (traffic ∷ rest) h (pass p a r) = (called, a)
  traffic_returned called (sysctl ∷ rest) h (pass p a r) = traffic_returned _ rest h r
  traffic_returned called (limits ∷ rest) h (pass p a r) = traffic_returned _ rest h r
  traffic_returned called (rlimit ∷ rest) h (pass p a r) = traffic_returned _ rest h r

  keeps_traffic : deps.present traffic ≡ true → any is_traffic (keep deps.present order) ≡ true
  keeps_traffic h = ground arith

  -- A call of another service returned `x`, or `x` is a panic.
  pub data Blamed (x : GoError) : Type 0 where
    failed :
        (called : List Service) (s : Service)
        → s ≢ traffic
        → deps.apply called s ≡ returns (some x)
        → Blamed x
    panicked :
        (called : List Service) (s : Service) (text : Text)
        → deps.apply called s ≡ panics text
        → x ≡ daemon_panic text
        → Blamed x

  module _ (env : Env) (message : Message) (profiles : ProfileSet) (opt : Optimizer)
      (s : Shaper) where
    -- The traffic service is the shaper in the state `s`: where its call returns, `Apply` does.
    abbrev pub IsShaper : Type 0
    IsShaper =
        (called : List Service) (e : Option GoError)
        → deps.apply called traffic ≡ returns e
        → (t : Shaper) × ApplyAll env message profiles opt s e t

    abbrev pub IsListed : Link → List Link → Type 0
    IsListed l ls = (list_and_prepare_links env (call (optimize env opt) s).1).0 ≡ ok (l ∷ ls)

    no_return :
        (l : Link) (ls : List Link) (called : List Service) (e : Option GoError)
        → IsShaper
        → IsListed l ls
        → deps.apply called traffic ≢ returns e
    no_return l ls called e shaper listed h =
        elim (ApplyInterfaces-returns env message profiles (shaper called e h).1) [
          | inl (x, f, g) ↦ cc (listed, f)
          | inr (f, g) ↦ cc (listed, f)
        ]

    blame :
        (l : Link) (ls : List Link) (called : List Service) (sv : Service) (x : GoError)
        → IsShaper
        → IsListed l ls
        → deps.apply called sv ≡ returns (some x)
        → Blamed x
    blame l ls called traffic x shaper listed h =
        absurd (no_return l ls called (some x) shaper listed h)
    blame l ls called sysctl x shaper listed h = failed called sysctl (λ e. cc) h
    blame l ls called limits x shaper listed h = failed called limits (λ e. cc) h
    blame l ls called rlimit x shaper listed h = failed called rlimit (λ e. cc) h

    stopped-Blamed :
        (l : Link) (ls : List Link) (x : GoError)
        → IsShaper
        → IsListed l ls
        → (r : List Service × Progress) → Outcome deps [] order r
        → r.1 ≡ stopped x
        → Blamed x
    stopped-Blamed l ls x shaper listed r (all_applied passed e) h = cc
    stopped-Blamed l ls x shaper listed r (stops before sv after q k passed ends e) h =
        elim (Ends-stopped (deps.apply before sv) q x ends (rw e at h)) [
          | inl f ↦ blame l ls before sv x shaper listed f
          | inr (text, f, g) ↦ panicked before sv text f g
        ]

    never_running :
        (l : Link) (ls : List Link) (b : Bool)
        → deps.present traffic ≡ true
        → IsShaper
        → IsListed l ls
        → (r : List Service × Progress) → Outcome deps [] order r
        → r.1 ≢ running b
    never_running l ls b here shaper listed r (all_applied passed e) h =
        let (before, a) =
          traffic_returned [] (keep deps.present order) (keeps_traffic here) passed in
        no_return l ls before none shaper listed a
    never_running l ls b here shaper listed r (stops before sv after q k passed ends e) h =
        Ends-running (deps.apply before sv) q b ends (rw e at h)

    -- For a daemon whose traffic service is the shaper, on a machine where a link is listed once the
    -- routes are optimized: `Run` never comes to its `select`, neither starts the watch nor heeds the
    -- end of its context. It can return only what the sysctl, limits or rlimit service returned, or
    -- a panic as an error.
    pub Run-hangs :
        (l : Link) (ls : List Link) {ctx : Option GoError} {watch : Watched} {e : Option GoError}
        → deps.present traffic ≡ true
        → IsShaper
        → IsListed l ls
        → RunReturns deps true ctx watch e
        → ((watches : Bool) → (startup deps).1 ≢ running watches)
          × ((x : GoError) × (e ≡ some x) × Blamed x)
    Run-hangs l ls here shaper listed (no_context_given g e) = cc
    Run-hangs l ls here shaper listed (startup_stops x g h e) = (
      λ b. never_running l ls b here shaper listed (startup deps) (startup-Outcome deps),
      (x, e, stopped-Blamed l ls x shaper listed (startup deps) (startup-Outcome deps) h),
    )
    Run-hangs l ls here shaper listed (selects b g h n r) =
        absurd (never_running l ls b here shaper listed (startup deps) (startup-Outcome deps) h)
