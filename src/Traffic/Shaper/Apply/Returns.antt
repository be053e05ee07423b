-- ===== src/Traffic/Shaper/Apply/Returns.antt =====
-- When `applyInterfaces` and `Apply` return.
use tcsss.Prelude.{◌≡◌, ◌≢◌, ◌↔◌, ◌⊎◌, refl, inl, inr, Option, none, some, List, [], ◌∷◌, arith}
use tcsss.Errors.{GoError}
use tcsss.Traffic.Env.{Env, Result, ok, err, Link, Shaper}
use tcsss.Traffic.Commands.{Message}
use tcsss.Traffic.Profiles.{ProfileSet}
use tcsss.Traffic.Shaper.Process.{Only, process_link}
use tcsss.Traffic.Shaper.Pool.Hang.{apply_to_links_hangs}
use tcsss.Traffic.Shaper.Apply.{
  list_and_prepare_links, ApplyToLinks, empty, pooled, ApplyInterfaces, list_fails, applied,
}

module _ (env : Env) (message : Message) (profiles : ProfileSet) where
  ApplyToLinks-empty :
      {links : List Link} {only : Only} {s : Shaper} {e : Option GoError} {t : Shaper}
      → ApplyToLinks env message profiles links only s e t
      → (links ≡ []) × (e ≡ none) × (t ≡ s)
  ApplyToLinks-empty (empty l e t) = (l, e, t)
  ApplyToLinks-empty {links} {only} {s} {e} (pooled n p ne r c t) =
      let running =
        (apply_to_links_hangs (λ seen. process_link seen message profiles only) env links s r).1 in
      absurd (ground (arith, c, running))

  -- A pass over the interfaces returns only if the links cannot be listed, and then with that
  -- error, or if there are none; where a link is listed, it never returns.
  pub ApplyInterfaces-returns :
      {only : Only} {s : Shaper} {e : Option GoError} {t : Shaper}
      → ApplyInterfaces env message profiles only s e t
      → ((x : GoError) × ((list_and_prepare_links env s).0 ≡ err x) × (e ≡ some x))
        ⊎ (((list_and_prepare_links env s).0 ≡ ok []) × (e ≡ none))
  ApplyInterfaces-returns (list_fails x h e t) = inl (x, h, e)
  ApplyInterfaces-returns (applied links u failed h a e t) =
      inr (rw (← (ApplyToLinks-empty a).0) h, e)

  -- A pass over the interfaces, called in any state, comes to its return exactly if no link is listed:
  -- the links cannot be listed, or there are none.
  pub ApplyInterfaces-terminates :
      (only : Only) (s : Shaper)
      → ((e : Option GoError) × (t : Shaper) × ApplyInterfaces env message profiles only s e t)
        ↔ ((l : Link) (ls : List Link) → (list_and_prepare_links env s).0 ≢ ok (l ∷ ls))
  ApplyInterfaces-terminates only s =
      (stays_empty, finds_return (list_and_prepare_links env s).0 refl)
    where
      stays_empty :
          ((e : Option GoError) × (t : Shaper) × ApplyInterfaces env message profiles only s e t)
          → (l : Link) (ls : List Link) → (list_and_prepare_links env s).0 ≢ ok (l ∷ ls)
      stays_empty (e, t, a) l ls h = elim (ApplyInterfaces-returns a) [
        | inl (x, f, g) ↦ cc
        | inr (f, g) ↦ cc
      ]

      finds_return :
          (r : Result (List Link))
          → (list_and_prepare_links env s).0 ≡ r
          → ((l : Link) (ls : List Link) → (list_and_prepare_links env s).0 ≢ ok (l ∷ ls))
          → (e : Option GoError) × (t : Shaper) × ApplyInterfaces env message profiles only s e t
      finds_return (err x) h n = (some x, _, list_fails x h refl refl)
      finds_return (ok []) h n = (none, _, applied [] _ none h (empty refl refl refl) refl refl)
      finds_return (ok (l ∷ ls)) h n = absurd (n l ls h)
