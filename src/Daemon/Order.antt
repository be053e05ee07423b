-- ===== src/Daemon/Order.antt =====
-- The order of the services, and what stops `Run`.
use tcsss.Prelude.{
  ◌≡◌, inl, inr, refl, true, false, none, some, List, [], ◌∷◌, ◌++◌, keep, Bool-cases,
}
use mathlib.Core.List.{append-nil, append_assoc}
use tcsss.Daemon.{
  Service, sysctl, limits, rlimit, traffic, Ended, returns, panics, never, Dependencies, Progress,
  stopped, stuck, running, daemon_panic, after_call, apply_services, startup,
}

-- How a service call that does not return nil ends the startup.
abbrev pub Ends : Ended → Progress → Type 0
Ends (returns none) q = ⊥
Ends (returns (some e)) q = q ≡ stopped e
Ends (panics text) q = q ≡ stopped (daemon_panic text)
Ends never q = q ≡ stuck

abbrev pub order : List Service
order = sysctl ∷ limits ∷ rlimit ∷ traffic ∷ []

module _ (deps : Dependencies) where
  -- Each service in the list is present and its call, made after those before it, returned nil.
  pub data Passed : List Service → List Service → Type 0 where
    start : {called : List Service} → Passed called []
    pass :
        {called : List Service} {s : Service} {rest : List Service}
        → deps.present s ≡ true
        → deps.apply called s ≡ returns none
        → Passed (called ++ (s ∷ [])) rest
        → Passed called (s ∷ rest)

  -- Either all present services returned nil, in order, or the calls stop at the first that did not.
  pub data Outcome (called todo : List Service) (result : List Service × Progress) : Type 0 where
    all_applied :
        Passed called (keep deps.present todo)
        → result ≡ (called ++ keep deps.present todo, running (deps.present traffic))
        → Outcome called todo result
    stops :
        (before : List Service) (s : Service) (after : List Service) (q : Progress)
        → keep deps.present todo ≡ before ++ (s ∷ after)
        → Passed called before
        → Ends (deps.apply (called ++ before) s) q
        → result ≡ (called ++ (before ++ (s ∷ [])), q)
        → Outcome called todo result

  extend :
      (called : List Service) (s : Service) (todo : List Service) (result : List Service × Progress)
      → deps.present s ≡ true
      → deps.apply called s ≡ returns none
      → Outcome (called ++ (s ∷ [])) todo result
      → Outcome called (s ∷ todo) result
  extend called s todo result p a (all_applied passed e) =
      all_applied (rw (p, keep) (pass p a passed)) (rw (p, keep, e, append_assoc))
  extend called s todo result p a (stops before t after q k passed ends e) =
      stops (s ∷ before) t after q (rw (p, keep, k)) (pass p a passed) (rw append_assoc at ends)
        (rw (e, append_assoc))

  absent :
      (called : List Service) (s : Service) (todo : List Service) (result : List Service × Progress)
      → deps.present s ≡ false
      → Outcome called todo result
      → Outcome called (s ∷ todo) result
  absent called s todo result p (all_applied passed e) =
      all_applied (rw (p, keep) passed) (rw (p, keep) e)
  absent called s todo result p (stops before t after q k passed ends e) =
      stops before t after q (rw (p, keep) k) passed ends e

  stops_here :
      (called : List Service) (s : Service) (todo : List Service) (q : Progress)
      → deps.present s ≡ true
      → Ends (deps.apply called s) q
      → Outcome called (s ∷ todo) (called ++ (s ∷ []), q)
  stops_here called s todo q p ends =
      stops [] s (keep deps.present todo) q (rw (p, keep)) start (rw append-nil ends) refl

  after_call-Outcome :
      (called : List Service) (s : Service) (todo : List Service) (next : List Service × Progress)
      (r : Ended)
      → deps.present s ≡ true
      → deps.apply called s ≡ r
      → Outcome (called ++ (s ∷ [])) todo next
      → Outcome called (s ∷ todo) (after_call (called ++ (s ∷ [])) next r)
  after_call-Outcome called s todo next (returns none) p a o = extend called s todo next p a o
  after_call-Outcome called s todo next (returns (some e)) p a o =
      stops_here called s todo (stopped e) p (rw a refl)
  after_call-Outcome called s todo next (panics text) p a o =
      stops_here called s todo (stopped (daemon_panic text)) p (rw a refl)
  after_call-Outcome called s todo next never p a o = stops_here called s todo stuck p (rw a refl)

  apply_services-Outcome :
      (called todo : List Service) → Outcome called todo (apply_services deps called todo)
  unfolding apply_services
  apply_services-Outcome called [] = all_applied start (rw append-nil)
  apply_services-Outcome called (s ∷ todo) = elim (Bool-cases (deps.present s)) [
    | inl p ↦
        rw (p, apply_services)
          (after_call-Outcome called s todo _ (deps.apply called s) p refl
            (apply_services-Outcome (called ++ (s ∷ [])) todo))
    | inr p ↦ rw (p, apply_services) (absent called s todo _ p (apply_services-Outcome called todo))
  ]

  -- The services that are present are called in the order sysctl, limits, rlimit, traffic, each only
  -- if those before it returned nil. If all do, `Run` goes on, with a watch if there is a traffic
  -- service; else it stops at the first one that does not: with its error, with its panic as an
  -- error, or for ever.
  pub startup-Outcome : Outcome [] order (startup deps)
  unfolding startup
  startup-Outcome = apply_services-Outcome [] order
