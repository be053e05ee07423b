-- ===== src/Traffic/Shaper/Cleanup.antt =====
-- shaper_cleanup.go: the initial cleanup, the ifb devices in use, and signatures of links that are gone.
pub mod Stale
use tcsss.Prelude.{
  Bool, true, false, ◌||◌, Option, none, some, List, [], ◌∷◌, ◌++◌, M, ◌>>=◌, ◌>>◌, return,
  if◌then◌else◌,
}
use tcsss.Text.Ops.{Text, bytes, is_empty, has_prefix, mem}
use tcsss.Text.Maps.{keep_keys}
use tcsss.Errors.{GoError, critical, recoverable, wrapped, typed, no_context}
use tcsss.Traffic.Env.{Env, Result, ok, err, Link, LinkAttrs, link_list, ask, Shaper, call}
use tcsss.Traffic.Commands.{Message}
use tcsss.Traffic.Classifier.Classify.{
  IfaceClass, unknown, loopback, external_physical, external_virtual, internal_virtual,
  internal_virtual_skip, classify,
}
use tcsss.Traffic.Ifb.{ifb_of, cleanup_skipped_virtual_interfaces}

-- `ensureInitialCleanup`; the error of the cleanup is logged only.
unfoldable pub ensure_initial_cleanup : Env → Message → List Link → M Shaper (Unit {0})
ensure_initial_cleanup env message links s =
    if s.did_initial_cleanup
    then (tt, s)
    else (call (cleanup_skipped_virtual_interfaces env message links) >> λ t.
          (tt, record t { did_initial_cleanup = true }))
        s

-- The classes whose links have an ifb device.
abbrev pub needs_ifb : IfaceClass → Bool
needs_ifb loopback = true
needs_ifb external_physical = true
needs_ifb external_virtual = true
needs_ifb internal_virtual = true
needs_ifb internal_virtual_skip = false
needs_ifb unknown = false

module _ (env : Env) where
  required_ifb : Link → M Shaper (List Text)
  unfolding has_prefix
  required_ifb link = elim link.attrs [
    | none ↦ return []
    | some a ↦
        (if is_empty a.name || has_prefix (bytes "ifb") a.name
          then return []
          else classify env (some a) >>= λ class.
              return (if needs_ifb class then ifb_of a.name ∷ [] else []))
  ]

  -- `determineRequiredIfbs`: the keys of its result.
  unfoldable pub determine_required_ifbs : List Link → M Shaper (List Text)
  unfolding required_ifb
  determine_required_ifbs [] = return []
  determine_required_ifbs (link ∷ links) = do
    names ← required_ifb link
    rest ← determine_required_ifbs links
    return (names ++ rest)

-- The keys of `current` in `cleanupStaleSignatures`.
unfoldable pub current_names : List Link → List Text
current_names [] = []
current_names (link ∷ links) =
    let rest = current_names links in
    elim link.attrs [ none ↦ rest | some a ↦ (if is_empty a.name then rest else a.name ∷ rest) ]

abbrev drop_stale : Result (List Link) → M Shaper (Option GoError)
drop_stale (err e) s = (
  some (
      typed recoverable (wrapped (bytes "list links for signature cleanup") e)
        (record no_context { operation = bytes "link_list_cleanup" })),
  s,
)
drop_stale (ok links) s = (
  none,
  record s {
    applied_signatures = keep_keys (λ name. mem name (current_names links)) s.applied_signatures;
  },
)

-- `cleanupStaleSignatures`
unfoldable pub cleanup_stale_signatures : Env → M Shaper (Option GoError)
unfolding current_names keep_keys mem
cleanup_stale_signatures env = call (ask env.links link_list) >>= drop_stale
