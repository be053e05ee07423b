-- ===== src/Traffic/Classifier/Refresh/Exact.antt =====
-- What a refresh leaves in the set of external links.
use tcsss.Prelude.Int.{ℤ, pos, int_eq, int_le}
use tcsss.Prelude.{
  ℕ, ◌≡◌, refl, ◌∙◌, Bool, true, not, ◌||◌, ◌&&◌, Option, none, some, List, [], ◌∷◌, ◌++◌, arith,
  any, Bool-cases, inl, inr,
}
use tcsss.Traffic.Env.{Env, Result, ok, err, Route, v4, v6, route_list, time_now, Shaper, History}
use tcsss.Traffic.Classifier.Refresh.{
  is_default_route, default_indexes, indexes_of, rebuild, fetch_routes, skip_if_fresh,
  refresh_after, is_fresh, refresh_external_interfaces, default_external_refresh_interval,
}

-- A route makes its link external.
abbrev pub makes_external : ℤ → Route → Bool
makes_external i r =
    (is_default_route r && not (int_le r.link_index (pos 0))) && int_eq i r.link_index

any-default_indexes :
    (i : ℤ) (routes : List Route)
    → any (int_eq i) (default_indexes routes) ≡ any (makes_external i) routes
unfolding default_indexes
any-default_indexes i [] = refl
any-default_indexes i (r ∷ routes) = ground (arith, any-default_indexes i routes)

any-append {ℓ} :
    {A : Type ℓ} (p : A → Bool) (xs ys : List A) → any p (xs ++ ys) ≡ (any p xs || any p ys)
any-append p [] ys = refl
any-append p (x ∷ xs) ys = ground (arith, any-append p xs ys)

-- The routes that a listing reports; none if it fails.
abbrev pub routes_of : Result (List Route) → List Route
routes_of (ok routes) = routes
routes_of (err e) = []

any-indexes_of :
    (i : ℤ) (r : Result (List Route))
    → any (int_eq i) (indexes_of r) ≡ any (makes_external i) (routes_of r)
any-indexes_of i (ok routes) = any-default_indexes i routes
any-indexes_of i (err e) = refl

module _ (env : Env) where
  abbrev pub after_four : History → History
  after_four h = h ++ (route_list v4 ∷ [])

  -- The set that a rebuild leaves, by the answers to its two listings.
  abbrev pub Rebuilt : History → Shaper → ℤ → Type 0
  Rebuilt h t i = any (int_eq i) t.external_link_indexes ≡ (
      any (makes_external i) (routes_of (env.routes h v4))
      || any (makes_external i) (routes_of (env.routes (after_four h) v6)))

  rebuild-Rebuilt : (s : Shaper) (i : ℤ) → Rebuilt s.history (rebuild env s).1 i
  unfolding rebuild fetch_routes
  rebuild-Rebuilt s i =
      any-append (int_eq i) (indexes_of (env.routes s.history v4))
        (indexes_of (env.routes (after_four s.history) v6))
      ∙ rw (
        any-indexes_of i (env.routes s.history v4),
        any-indexes_of i (env.routes (after_four s.history) v6),
      )

  -- A refresh is due if there was none yet, or if the interval is over.
  abbrev pub due : History → Option ℕ → Bool
  due h none = true
  due h (some last) = not (is_fresh default_external_refresh_interval last (env.now h))

  -- The calls made before the listings: the clock is read if there was a refresh.
  abbrev pub before_listing : History → Option ℕ → History
  before_listing h none = h
  before_listing h (some last) = h ++ (time_now ∷ [])

  refresh_after-Rebuilt :
      (s : Shaper) (last : Option ℕ)
      → due s.history last ≡ true
      → (i : ℤ)
      → Rebuilt
          (before_listing s.history last)
          (refresh_after env default_external_refresh_interval last s).1
          i
  unfolding skip_if_fresh
  refresh_after-Rebuilt s none d i = rebuild-Rebuilt s i
  refresh_after-Rebuilt s (some last) d i =
      elim (Bool-cases (is_fresh default_external_refresh_interval last (env.now s.history))) [
        | inl e ↦ absurd (ground arith)
        | inr e ↦ rw e (rebuild-Rebuilt (record s { history = s.history ++ (time_now ∷ []) }) i)
      ]

  -- A refresh that is due makes a link external exactly if the kernel lists a default route over it,
  -- for IPv4 or for IPv6; a family that cannot be listed counts as one without routes.
  pub refresh-Rebuilt :
      (s : Shaper)
      → due s.history s.last_refresh ≡ true
      → (i : ℤ)
      → Rebuilt (before_listing s.history s.last_refresh) (refresh_external_interfaces env s).1 i
  unfolding refresh_external_interfaces
  refresh-Rebuilt s = refresh_after-Rebuilt s s.last_refresh
