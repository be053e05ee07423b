-- ===== src/Syslimit/Rlimit/Merged.antt =====
-- The limits of the tier over the common ones.
use tcsss.Prelude.{
  ◌≡◌, refl, ap, Option, none, some, List, [], ◌∷◌, Bool-cases, inl, inr, Option-cases,
  if◌then◌else◌,
}
use tcsss.Text.Ops.{Text, text_eq}
use tcsss.Text.Maps.{lookup, insert, lookup-insert}
use tcsss.Config.Selector.{TemplateSet}
use tcsss.Syslimit.Rlimit.{LimitConfig, LimitsMap, put_limits, merged_limits, parse_rlimit_config}

abbrev pub or_else : Option LimitConfig → Option LimitConfig → Option LimitConfig
or_else (some l) o = some l
or_else none o = o

or_else-none : (o : Option LimitConfig) → or_else o none ≡ o
or_else-none none = refl
or_else-none (some l) = refl

-- The last limit for a resource.
unfoldable pub last_limit : Text → List LimitConfig → Option LimitConfig
unfolding text_eq
last_limit resource [] = none
last_limit resource (limit ∷ limits) =
    or_else (last_limit resource limits)
      (if text_eq limit.resource resource then some limit else none)

lookup-put_limits :
    (k : Text) (ls : List LimitConfig) (m : LimitsMap)
    → lookup k (put_limits ls m) ≡ or_else (last_limit k ls) (lookup k m)
unfolding put_limits last_limit
lookup-put_limits k [] m = refl
lookup-put_limits k (l ∷ ls) m =
    rw (lookup-put_limits k ls (insert l.resource l m), lookup-insert l.resource k l m)
      (elim (Option-cases (last_limit k ls)) [
        | inr (x, e) ↦ rw e refl
        | inl n ↦ elim (Bool-cases (text_eq l.resource k)) [ inl e ↦ rw (n, e) | inr e ↦ rw (n, e) ]
      ])

-- A resource has the last limit that the template of the tier gives it, else the last one of the common
-- template, else none.
pub lookup-merged_limits :
    {W : Type 0} (templates : TemplateSet W) (k : Text)
    → lookup k (merged_limits templates)
      ≡ or_else
          (last_limit k (parse_rlimit_config templates.specific))
          (last_limit k (parse_rlimit_config templates.common))
unfolding merged_limits lookup
lookup-merged_limits templates k =
    let common = parse_rlimit_config templates.common in
    let specific = parse_rlimit_config templates.specific in
    rw (lookup-put_limits k specific (put_limits common []), lookup-put_limits k common [])
      (ap (or_else (last_limit k specific)) (or_else-none (last_limit k common)))
