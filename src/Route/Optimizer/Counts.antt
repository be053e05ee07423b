-- ===== src/Route/Optimizer/Counts.antt =====
-- `applyRoutes`: every route is tried, whatever happened to those before it.
use tcsss.Prelude.{◌+◌, ◌≡◌, ◌||◌, List, [], ◌∷◌, ◌++◌, length, if◌then◌else◌, is_some, ltb}
use tcsss.Text.Ops.{Text, bytes, is_empty, fields}
use tcsss.Traffic.Env.{Env, exec, Call, History}
use tcsss.Route.Lines.{clean_route_line}
use tcsss.Route.Optimizer.{Applied, change_args}

-- The cleaned lines that are not empty, which `applyRoutes` passes on.
pub cleaned : List Text → List Text
cleaned [] = []
cleaned (r ∷ rs) =
    let rest = cleaned rs in
    if is_empty r || is_empty (clean_route_line r) then rest else clean_route_line r ∷ rest

module _ (env : Env) (params : List Text) where
  -- The call for one of them.
  pub change_calls : Text → List Call
  change_calls line =
      if is_empty (fields line)
      then []
      else exec (bytes "ip") (change_args env (fields line) params) ∷ []

  pub all_calls : List Text → List Call
  all_calls [] = []
  all_calls (l ∷ ls) = change_calls l ++ all_calls ls

  -- There is a first error exactly if a route failed.
  pub record Consistent (a : Applied) : Type 0 where
    pub matches : is_some a.first_err ≡ ltb 0 a.failures

  pub record Ran (a : Applied) (lines : List Text) (h : History) (r : Applied × History)
      : Type 0 where
    pub sum : r.0.optimized + r.0.failures ≡ a.optimized + a.failures + length lines
    pub consistent : Consistent r.0
    pub calls : r.1 ≡ h ++ all_calls lines
