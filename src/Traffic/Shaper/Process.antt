-- ===== src/Traffic/Shaper/Process.antt =====
-- shaper_apply.go: which links are processed, and with which profile.
pub mod Faults
use tcsss.Prelude.{
  ℕ, Bool, true, false, Option, none, some, List, M, ◌>>=◌, return, if◌then◌else◌, ltb, ◌||◌,
}
use tcsss.Text.Ops.{Text, bytes, is_empty, has_prefix, mem}
use tcsss.Errors.{GoError}
use tcsss.Traffic.Env.{Env, Link, LinkAttrs, Shaper}
use tcsss.Traffic.Commands.{Message}
use tcsss.Traffic.Profiles.{ProfileSet}
use tcsss.Traffic.Classifier.Classify.{
  IfaceClass, unknown, loopback, external_physical, external_virtual, internal_virtual,
  internal_virtual_skip, classify,
}
use tcsss.Traffic.Shaper.Configure.{configure_profile}

-- The set of names to process; `none` is Go's nil map, for all of them.
abbrev pub Only : Type 0
Only = Option (List Text)

abbrev selected : Only → Text → Bool
selected none name = true
selected (some names) name = mem name names

-- `shouldProcessLink`: the second result.
unfoldable pub should_process_link : Only → Option LinkAttrs → Bool
unfolding has_prefix mem
should_process_link only none = false
should_process_link only (some attrs) =
    if is_empty attrs.name || has_prefix (bytes "ifb") attrs.name
    then false
    else selected only attrs.name

abbrev pub default_worker_count : ℕ
default_worker_count = 4

-- `workerCount`
unfoldable pub worker_count : ℕ → ℕ
worker_count total = if ltb total default_worker_count then total else default_worker_count

module _ (env : Env) (message : Message) (profiles : ProfileSet) where
  -- The switch of `processLink`; `applyProfile` is `configureProfile`, but for what it logs.
  unfoldable pub apply_class : Option LinkAttrs → IfaceClass → M Shaper (Option GoError)
  apply_class attrs loopback =
      configure_profile env message attrs profiles.loopback (bytes "loopback")
  apply_class attrs external_physical =
      configure_profile env message attrs profiles.external_physical (bytes "external-physical")
  apply_class attrs external_virtual =
      configure_profile env message attrs profiles.external_virtual (bytes "external-virtual")
  apply_class attrs internal_virtual =
      configure_profile env message attrs profiles.internal_virtual (bytes "internal-virtual")
  apply_class attrs internal_virtual_skip = return none
  apply_class attrs unknown = return none

  -- `processLink`: was the link processed, and its error.
  unfoldable pub process_link : Only → Link → M Shaper (Bool × Option GoError)
  unfolding should_process_link apply_class
  process_link only link =
      if should_process_link only link.attrs
      then (classify env link.attrs >>= λ class.
          apply_class link.attrs class >>= λ e. return (true, e))
      else return (false, none)
