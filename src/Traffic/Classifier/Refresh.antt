-- ===== src/Traffic/Classifier/Refresh.antt =====
-- classifier_cache.go: the indexes of the links that carry a default route.
pub mod Exact
use Prim.Native.Nat.{compare}
use tcsss.Prelude.Int.{ℤ, pos, int_le, int_eq}
use tcsss.Prelude.{
  ℕ, ◌+◌, ◌-◌, Bool, true, false, not, ◌||◌, ◌&&◌, Option, none, some, List, [], ◌∷◌, ◌++◌, M,
  ◌>>=◌, ◌>>◌, return, ltb, ◌==◌, if◌then◌else◌,
}
use tcsss.Errors.{GoError}
use tcsss.Traffic.Env.{
  Env, Result, ok, err, Route, Family, v4, v6, route_list, time_now, History, ask, Shaper, call,
}

-- `isDefaultRoute`: no destination, or a mask of length 0.
unfoldable pub is_default_route : Route → Bool
is_default_route route = elim route.dst [
  | none ↦ true
  | some (ones, bits) ↦ not (bits == 0) && ones == 0
]

-- The loop of `fetchRoutes`.
unfoldable pub default_indexes : List Route → List ℤ
default_indexes [] = []
default_indexes (route ∷ routes) =
    let rest = default_indexes routes in
    if not (is_default_route route) || int_le route.link_index (pos 0)
    then rest
    else route.link_index ∷ rest

-- A family whose routes cannot be listed adds nothing.
abbrev indexes_of : Result (List Route) → List ℤ
indexes_of (ok routes) = default_indexes routes
indexes_of (err e) = []

fetch_routes : Env → Family → M History (List ℤ)
fetch_routes env family =
    ask (λ h. env.routes h family) (route_list family) >>= λ result. return (indexes_of result)

-- The part behind the interval check; `refresh_interval` is in nanoseconds.
rebuild : Env → M Shaper (Option GoError)
unfolding fetch_routes
rebuild env = do
  four ← call (fetch_routes env v4)
  six ← call (fetch_routes env v6)
  now ← call (ask env.now time_now)
  λ s. (none, record s { external_link_indexes = four ++ six; last_refresh = some now })

-- `time.Since(last) < interval`; a monotonic clock does not run backwards.
abbrev pub is_fresh : ℕ → ℕ → ℕ → Bool
is_fresh refresh_interval last now = ltb (now - last) refresh_interval

skip_if_fresh : Env → ℕ → ℕ → M Shaper (Option GoError)
unfolding rebuild
skip_if_fresh env refresh_interval last = do
  now ← call (ask env.now time_now)
  if is_fresh refresh_interval last now then return none else rebuild env

abbrev refresh_after : Env → ℕ → Option ℕ → M Shaper (Option GoError)
refresh_after env refresh_interval none = rebuild env
refresh_after env refresh_interval (some last) = skip_if_fresh env refresh_interval last

abbrev pub default_external_refresh_interval : ℕ
default_external_refresh_interval = 30000000000

-- `RefreshExternalInterfaces`, with the interval that `NewInterfaceClassifier` sets.
unfoldable pub refresh_external_interfaces : Env → M Shaper (Option GoError)
unfolding rebuild skip_if_fresh
refresh_external_interfaces env s =
    refresh_after env default_external_refresh_interval s.last_refresh s
