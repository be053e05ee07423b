-- ===== src/Route/Optimizer.antt =====
-- internal/route/optimizer.go: the routes of one job are listed, filtered and changed one by one.
pub mod Counts
use tcsss.Prelude.Int.{ℤ, pos}
use tcsss.Prelude.{
  ℕ, zero, suc, ◌+◌, String, Bool, true, false, ◌||◌, Option, none, some, List, [], ◌∷◌, ◌++◌, M,
  ◌>>=◌, return, if◌then◌else◌,
}
use tcsss.Text.Ops.{Text, bytes, is_empty, fields, join, trim_space, scan_lines}
use tcsss.Errors.{
  GoError, GoErrors, nil, plain, wrapped, recoverable, ErrorContext, no_context, merge, new, add,
  error_or_nil,
}
use tcsss.Traffic.Env.{Env, Result, ok, err, Output, exec, History, ask}
use tcsss.Route.Config.{WindowConfig, window_with_defaults, Params, params_args, bytes_to_segments}
use tcsss.Route.Lines.{
  clean_route_line, should_optimize_local, should_optimize_loopback, should_optimize_nic,
}

-- The segments that `NewOptimizer` computes.
pub record Optimizer : Type 0 where
  pub init_cwnd_segments : ℤ
  pub init_rwnd_segments : ℤ
  pub loopback_segments : ℤ

-- `NewOptimizer`
unfoldable pub new_optimizer : WindowConfig → Optimizer
unfolding window_with_defaults bytes_to_segments
new_optimizer config =
    let cfg = window_with_defaults config in
    record {
      init_cwnd_segments = bytes_to_segments cfg.init_cwnd_bytes cfg.mss_bytes;
      init_rwnd_segments = bytes_to_segments cfg.init_rwnd_bytes cfg.mss_bytes;
      loopback_segments = bytes_to_segments cfg.loopback_window_bytes cfg.mss_bytes;
    }

pub record RouteJob : Type 0 where
  pub category : Text
  pub route_args : List Text
  pub filter : Text → Bool
  pub params : Params
  pub fetch_operation : Text
  pub apply_operation : Text
  pub common_err_context : ErrorContext

-- `routeJob.fetchError`
unfoldable pub fetch_error : RouteJob → GoError → Option GoError
unfolding new merge
fetch_error job e =
    new recoverable (some (wrapped (bytes "fetch " ++ (job.category ++ bytes " routes")) e))
      (merge (record no_context { operation = job.fetch_operation }) job.common_err_context)

-- `routeJob.applyError`
unfoldable pub apply_error : RouteJob → GoError → Option GoError
unfolding new merge
apply_error job e =
    new recoverable (some (wrapped (bytes "apply " ++ (job.category ++ bytes " route changes")) e))
      (merge (record no_context { operation = job.apply_operation }) job.common_err_context)

-- What `applyRoutes` returns.
pub record Applied : Type 0 where
  pub optimized : ℕ
  pub failures : ℕ
  pub first_err : Option GoError

abbrev pub nothing_applied : Applied
nothing_applied = record { optimized = 0; failures = 0; first_err = none }

-- The counters after one more route.
abbrev pub tally : Option GoError → Applied → Applied
tally none a = record a { optimized = a.optimized + 1 }
tally (some e) a = record a {
  failures = a.failures + 1;
  first_err = elim a.first_err [ none ↦ some e | some x ↦ some x ];
}

abbrev lines_of : Output → Result (List Text)
lines_of output = elim output.failure [
  | some e ↦ err e
  | none ↦ elim (scan_lines output.text) [
    | none ↦ err (plain (bytes "bufio.Scanner: token too long"))
    | some lines ↦ ok lines
  ]
]

-- `filterRoutes`
unfoldable pub filter_routes : (Text → Bool) → List Text → List Text
unfolding trim_space
filter_routes predicate [] = []
filter_routes predicate (raw ∷ lines) =
    let rest = filter_routes predicate lines in
    let line = trim_space raw in if predicate line then line ∷ rest else rest

module _ (env : Env) where
  -- `runIPCommand`; its timeout is a matter of the environment's answer.
  abbrev pub run_ip_command : List Text → M History Output
  run_ip_command args = ask (λ h. env.run h (bytes "ip") args) (exec (bytes "ip") args)

  -- `fetchRoutes`
  unfoldable pub fetch_routes : List Text → M History (Result (List Text))
  unfolding scan_lines
  fetch_routes args = run_ip_command args >>= λ output. return (lines_of output)

  abbrev pub change_args : List Text → List Text → List Text
  change_args tokens params = bytes "route" ∷ bytes "change" ∷ (tokens ++ params)

  abbrev pub change_error : List Text → Output → Option GoError
  change_error args output = elim output.failure [
    | none ↦ none
    | some e ↦ some (wrapped (bytes "ip " ++ join (bytes " ") args) e)
  ]

  -- `applyRouteChange`
  unfoldable pub apply_route_change : Text → List Text → M History (Option GoError)
  unfolding fields join
  apply_route_change route_line params =
      let tokens = fields route_line in
      if is_empty tokens
      then return (some (plain (bytes "empty route line")))
      else (run_ip_command (change_args tokens params) >>= λ output.
          return (change_error (change_args tokens params) output))

  -- The loop of `applyRoutes`, with the counters so far.
  unfoldable pub apply_routes_from : List Text → List Text → Applied → M History Applied
  apply_routes_from [] params a = return a
  apply_routes_from (route ∷ routes) params a =
      if is_empty route || is_empty (clean_route_line route)
      then apply_routes_from routes params a
      else (apply_route_change (clean_route_line route) params >>= λ e.
          apply_routes_from routes params (tally e a))

  -- `applyRoutes`
  unfoldable pub apply_routes : List Text → List Text → M History Applied
  unfolding apply_routes_from
  apply_routes routes params = apply_routes_from routes params nothing_applied

  abbrev job_result : RouteJob → Applied → Option GoError
  job_result job a = elim a.first_err [ none ↦ none | some e ↦ apply_error job e ]

  abbrev apply_job : RouteJob → Result (List Text) → M History (Option GoError)
  apply_job job (err e) = return (fetch_error job e)
  apply_job job (ok lines) =
      apply_routes (filter_routes job.filter lines) (params_args job.params) >>= λ a.
      return (job_result job a)

  -- `(*Optimizer).optimize`
  unfoldable pub optimize_job : RouteJob → M History (Option GoError)
  unfolding fetch_routes apply_routes filter_routes fetch_error apply_error
  optimize_job job = fetch_routes job.route_args >>= apply_job job

-- `optimizeLocal`
unfoldable pub local_job : Optimizer → RouteJob
local_job opt = record {
  category = bytes "local";
  route_args = bytes "route" ∷ bytes "show" ∷ bytes "table" ∷ bytes "local" ∷ [];
  filter = should_optimize_local;
  params = record {
    mtu = pos 1500;
    init_cwnd = opt.init_cwnd_segments;
    init_rwnd = opt.init_rwnd_segments;
    congctl = bytes "cubic";
  };
  fetch_operation = bytes "fetch_local_routes";
  apply_operation = bytes "optimize_local_routes";
  common_err_context = no_context;
}

-- `optimizeLoopback`
unfoldable pub loopback_job : Optimizer → RouteJob
loopback_job opt = record {
  category = bytes "loopback";
  route_args = bytes "route" ∷ bytes "show" ∷ bytes "table" ∷ bytes "local" ∷ [];
  filter = should_optimize_loopback;
  params = record {
    mtu = pos 65520;
    init_cwnd = opt.loopback_segments;
    init_rwnd = opt.loopback_segments;
    congctl = bytes "cubic";
  };
  fetch_operation = bytes "fetch_loopback_routes";
  apply_operation = bytes "optimize_loopback_routes";
  common_err_context = no_context;
}

-- The job of `optimizeNIC` for the interface and the congestion control found.
unfoldable pub nic_job : Optimizer → Text → Text → RouteJob
nic_job opt nic congctl = record {
  category = bytes "nic";
  route_args = bytes "route" ∷ bytes "show" ∷ [];
  filter = should_optimize_nic nic;
  params = record {
    mtu = pos 1500;
    init_cwnd = opt.init_cwnd_segments;
    init_rwnd = opt.init_rwnd_segments;
    congctl = congctl;
  };
  fetch_operation = bytes "fetch_nic_routes";
  apply_operation = bytes "optimize_nic_routes";
  common_err_context = record no_context { iface = nic };
}
