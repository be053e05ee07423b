-- ===== src/Traffic/Shaper/Cleanup/Stale.antt =====
-- What `cleanupStaleSignatures` keeps.
use tcsss.Prelude.{
  ◌≡◌, ◌∙◌, refl, Bool, false, not, ◌&&◌, ◌||◌, arith, some, Option, none, Option-cases, inl, inr,
  List, [], ◌∷◌, ◌++◌, if◌then◌else◌,
}
use tcsss.Text.Ops.{Text, mem, text_eq, is_empty}
use tcsss.Text.Maps.{lookup, lookup-keep_keys}
use tcsss.Traffic.Env.{Env, Result, ok, err, Link, link_list, Shaper}
use tcsss.Traffic.Shaper.Cleanup.{current_names, drop_stale, cleanup_stale_signatures}

-- A link of the list has the name. Links without attributes have none, and the empty name is no name.
unfoldable pub is_listed : Text → List Link → Bool
unfolding text_eq
is_listed name [] = false
is_listed name (link ∷ links) =
    elim link.attrs [ none ↦ false | some a ↦ text_eq name a.name && not (is_empty name) ]
    || is_listed name links

-- The signature that a cleanup leaves for a name, by the links that the kernel lists.
abbrev pub signature_after : Result (List Link) → Text → List (Text × Text) → Option Text
signature_after (err e) name before = lookup name before
signature_after (ok links) name before = if is_listed name links then lookup name before else none

-- One link more: its name counts where it is not empty.
mem_name :
    (name own : Text) (names : List Text)
    → mem name (if is_empty own then names else own ∷ names)
      ≡ (text_eq name own && not (is_empty name)) || mem name names
unfolding mem text_eq
mem_name [] [] names = refl
mem_name [] (d ∷ own) names = refl
mem_name (c ∷ name) [] names = refl
mem_name (c ∷ name) (d ∷ own) names = ground arith

mem-current_names :
    (name : Text) (links : List Link) → mem name (current_names links) ≡ is_listed name links
unfolding current_names is_listed
mem-current_names name [] = unfold mem in refl
mem-current_names name (link ∷ links) = elim (Option-cases link.attrs) [
  | inl e ↦ rw e (mem-current_names name links)
  | inr (a, e) ↦
      rw (e, mem_name name a.name (current_names links), mem-current_names name links) refl
]

drop_stale-lookup :
    (r : Result (List Link)) (name : Text) (s : Shaper)
    → lookup name (drop_stale r s).1.applied_signatures
      ≡ signature_after r name s.applied_signatures
drop_stale-lookup (err e) name s = refl
drop_stale-lookup (ok links) name s =
    lookup-keep_keys (λ n. mem n (current_names links)) name s.applied_signatures
    ∙ rw (mem-current_names name links) refl

-- A cleanup keeps the signature of a name exactly if the name is not empty and a link of that name
-- is listed, and drops it else; where the links
-- cannot be listed it keeps all signatures.
pub cleanup_stale_signatures-lookup :
    (env : Env) (name : Text) (s : Shaper)
    → lookup name (cleanup_stale_signatures env s).1.applied_signatures
      ≡ signature_after (env.links s.history) name s.applied_signatures
unfolding cleanup_stale_signatures
cleanup_stale_signatures-lookup env name s =
    drop_stale-lookup (env.links s.history) name
      (record s { history = s.history ++ (link_list ∷ []) })
