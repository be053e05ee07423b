-- ===== src/Route/Optimize/Parts.antt =====
-- The error of `Optimize`, by the errors of its three parts.
use tcsss.Prelude.{◌≡◌, ◌↔◌, refl, Option, none, some, arith}
use tcsss.Errors.{GoError, add, error_or_nil}
use tcsss.Traffic.Env.{Env, History}
use tcsss.Route.Optimizer.{Optimizer}
use tcsss.Route.Optimize.{collect, optimize_loopback, optimize_local, optimize_nic, optimize}

collect-none :
    (loopback local nic : Option GoError)
    → (collect loopback local nic ≡ none) ↔ ((loopback ≡ none) × (local ≡ none) × (nic ≡ none))
unfolding collect add error_or_nil
collect-none none none none = ground arith
collect-none none none (some c) = ground arith
collect-none none (some b) none = ground arith
collect-none none (some b) (some c) = ground arith
collect-none (some a) none none = ground arith
collect-none (some a) none (some c) = ground arith
collect-none (some a) (some b) none = ground arith
collect-none (some a) (some b) (some c) = ground arith

module _ (env : Env) (opt : Optimizer) where
  -- The histories in which the second and the third part start: no part is left out after an error.
  abbrev pub at_local : History → History
  at_local h = (optimize_loopback env opt h).1

  abbrev pub at_nic : History → History
  at_nic h = (optimize_local env opt (at_local h)).1

  -- `Optimize` runs its three parts in order, each whatever the others returned, and returns nil
  -- exactly if all three do.
  pub optimize-none :
      (h : History)
      → ((optimize env opt h).1 ≡ (optimize_nic env opt (at_nic h)).1)
        × (((optimize env opt h).0 ≡ none) ↔ (
            ((optimize_loopback env opt h).0 ≡ none)
            × ((optimize_local env opt (at_local h)).0 ≡ none)
            × ((optimize_nic env opt (at_nic h)).0 ≡ none)))
  unfolding optimize
  optimize-none h = (
    refl,
    collect-none (optimize_loopback env opt h).0 (optimize_local env opt (at_local h)).0
        (optimize_nic env opt (at_nic h)).0,
  )
