-- ===== src/Route/Optimize.antt =====
-- internal/route/optimizer.go: `Optimize` and its three parts.
pub mod Parts
use tcsss.Prelude.{
  Bool, true, false, ◌||◌, Option, none, some, List, [], ◌∷◌, M, ◌>>=◌, return, if◌then◌else◌,
}
use tcsss.Text.Ops.{Text, bytes, is_empty}
use tcsss.Errors.{
  GoError, GoErrors, nil, plain, wrapped, recoverable, no_context, new, add, error_or_nil,
}
use tcsss.Traffic.Env.{Env, Result, ok, err, History}
use tcsss.Route.Optimizer.{Optimizer, optimize_job, local_job, loopback_job, nic_job}
use tcsss.Route.Detection.{get_primary_nic, get_current_congestion_control}

abbrev pub in_part : Text → Option GoError → Option GoError
in_part text none = none
in_part text (some e) = some (wrapped text e)

-- The three errors, those that are nil left out.
unfoldable pub collect : Option GoError → Option GoError → Option GoError → Option GoError
unfolding add error_or_nil
collect loopback local nic = error_or_nil (
    add (in_part (bytes "nic") nic)
      (add (in_part (bytes "local") local) (add (in_part (bytes "loopback") loopback) nil)))

module _ (env : Env) (opt : Optimizer) where
  unfoldable pub optimize_loopback : M History (Option GoError)
  unfolding optimize_job loopback_job
  optimize_loopback = optimize_job env (loopback_job opt)

  unfoldable pub optimize_local : M History (Option GoError)
  unfolding optimize_job local_job
  optimize_local = optimize_job env (local_job opt)

  no_primary_nic : GoError → Option GoError
  unfolding new
  no_primary_nic e =
      new recoverable (some (wrapped (bytes "failed to detect primary NIC") e))
        (record no_context { operation = bytes "detect_primary_nic" })

  congctl_or_cubic : Option Text → Text
  congctl_or_cubic none = bytes "cubic"
  congctl_or_cubic (some congctl) = congctl

  for_nic : Result Text → M History (Option GoError)
  unfolding no_primary_nic congctl_or_cubic get_current_congestion_control optimize_job nic_job
  for_nic (err e) = return (no_primary_nic e)
  for_nic (ok nic) =
      if is_empty nic
      then return (no_primary_nic (plain (bytes "%!w(<nil>)")))
      else (get_current_congestion_control env >>= λ congctl.
          optimize_job env (nic_job opt nic (congctl_or_cubic congctl)))

  -- `optimizeNIC`
  unfoldable pub optimize_nic : M History (Option GoError)
  unfolding for_nic get_primary_nic
  optimize_nic = get_primary_nic env >>= for_nic

  -- `Optimize`
  unfoldable pub optimize : M History (Option GoError)
  unfolding optimize_loopback optimize_local optimize_nic collect
  optimize = optimize_loopback >>= λ loopback.
      optimize_local >>= λ local. optimize_nic >>= λ nic. return (collect loopback local nic)
