-- ===== src/Traffic/Shaper/Apply.antt =====
-- shaper_apply.go, `applyInterfaces`, and shaper.go, `Apply`, as relations between a call and its
-- return: a call that never returns is related to nothing.
pub mod Returns
use tcsss.Prelude.{
  ℕ, ◌≡◌, ◌≢◌, Bool, true, false, Option, none, some, List, [], ◌∷◌, M, ◌>>=◌, ◌>>◌, return,
}
use tcsss.Text.Ops.{Text, bytes}
use tcsss.Errors.{GoError, critical, wrapped, typed, no_context}
use tcsss.Traffic.Env.{Env, Result, ok, err, Link, link_list, ask, Shaper, call}
use tcsss.Traffic.Commands.{Message}
use tcsss.Traffic.Profiles.{ProfileSet}
use tcsss.Traffic.Classifier.Refresh.{refresh_external_interfaces}
use tcsss.Traffic.Ifb.{prune_stale_ifbs}
use tcsss.Traffic.Shaper.Process.{Only, process_link}
use tcsss.Traffic.Shaper.Cleanup.{ensure_initial_cleanup, determine_required_ifbs}
use tcsss.Traffic.Shaper.Pool.{Pool, returned, start, Reach}
use tcsss.Route.Optimizer.{Optimizer}
use tcsss.Route.Optimize.{optimize}

abbrev no_links : GoError → GoError
no_links e =
    typed critical (wrapped (bytes "list links") e)
      (record no_context { operation = bytes "link_list" })

abbrev refreshed : Env → Result (List Link) → M Shaper (Result (List Link))
refreshed env (err e) = return (err (no_links e))
refreshed env (ok links) = refresh_external_interfaces env >> return (ok links)

-- `listAndPrepareLinks`; an error of the refresh is logged only.
unfoldable pub list_and_prepare_links : Env → M Shaper (Result (List Link))
unfolding refresh_external_interfaces
list_and_prepare_links env = call (ask env.links link_list) >>= refreshed env

-- The two calls in front of `applyToLinks`.
unfoldable pub prepare : Env → Message → List Link → M Shaper (List Text)
prepare env message links =
    ensure_initial_cleanup env message links >> determine_required_ifbs env links

module _ (env : Env) (message : Message) (profiles : ProfileSet) where
  -- `applyToLinks(links, only)`, called in `s`, returns `e` and leaves `t`.
  pub data ApplyToLinks (links : List Link) (only : Only) (s : Shaper) (e : Option GoError)
      (t : Shaper) : Type 0 where
    empty : links ≡ [] → e ≡ none → t ≡ s → ApplyToLinks links only s e t
    pooled :
        (n : ℕ) (p : Pool)
        → links ≢ []
        → Reach (λ seen. process_link seen message profiles only) (start links s) n p
        → p.caller ≡ returned e
        → t ≡ p.shaper
        → ApplyToLinks links only s e t

  -- `applyInterfaces(only)`, called in `s`, returns `e` and leaves `t`.
  pub data ApplyInterfaces (only : Only) (s : Shaper) (e : Option GoError) (t : Shaper)
      : Type 0 where
    list_fails :
        (x : GoError)
        → (list_and_prepare_links env s).0 ≡ err x
        → e ≡ some x
        → t ≡ (list_and_prepare_links env s).1
        → ApplyInterfaces only s e t
    applied :
        (links : List Link) (u : Shaper) (failed : Option GoError)
        → (list_and_prepare_links env s).0 ≡ ok links
        → ApplyToLinks links only
            (prepare env message links (list_and_prepare_links env s).1).1
            failed
            u
        → e ≡ none
        → t
          ≡ (call
              (prune_stale_ifbs env message links
                (prepare env message links (list_and_prepare_links env s).1).0)
              u).1
        → ApplyInterfaces only s e t

  -- `Apply`: an error of the route optimizer is logged only.
  abbrev pub ApplyAll : Optimizer → Shaper → Option GoError → Shaper → Type 0
  ApplyAll opt s e t = ApplyInterfaces none (call (optimize env opt) s).1 e t
