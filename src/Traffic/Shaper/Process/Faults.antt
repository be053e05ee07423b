-- ===== src/Traffic/Shaper/Process/Faults.antt =====
-- shaper_apply.go, `processLink`: what its errors are.
use tcsss.Prelude.{refl, Bool, true, false, Option, none, some, [], return, if◌then◌else◌, M, ◌>>=◌}
use tcsss.Text.Ops.{Text, bytes}
use tcsss.Errors.{GoError}
use tcsss.Traffic.Env.{Env, LinkAttrs, Shaper}
use tcsss.Traffic.Commands.{Message}
use tcsss.Traffic.Profiles.{ProfileSet}
use tcsss.Traffic.Classifier.Classify.{
  IfaceClass, unknown, loopback, external_physical, external_virtual, internal_virtual,
  internal_virtual_skip, classify,
}
use tcsss.Traffic.Shaper.Process.{Only, should_process_link, apply_class, process_link}
use tcsss.Traffic.Shaper.Configure.Categorised.{IsCategorised, fine}
use tcsss.Traffic.Shaper.Configure.Faults.{configure_profile-IsCategorised}

-- No error, or a categorised one that names the interface and a profile.
abbrev Named : Text → Option GoError → Type 0
Named iface e = (profile_name : Text) × IsCategorised iface profile_name e

module _ (env : Env) (message : Message) (profiles : ProfileSet) where
  apply_class-Named :
      (attrs : LinkAttrs) (class : IfaceClass) (s : Shaper)
      → Named attrs.name (apply_class env message profiles (some attrs) class s).0
  unfolding apply_class
  apply_class-Named attrs loopback s =
      (bytes "loopback", configure_profile-IsCategorised env message attrs profiles.loopback _ s)
  apply_class-Named attrs external_physical s = (
    bytes "external-physical",
    configure_profile-IsCategorised env message attrs profiles.external_physical _ s,
  )
  apply_class-Named attrs external_virtual s = (
    bytes "external-virtual",
    configure_profile-IsCategorised env message attrs profiles.external_virtual _ s,
  )
  apply_class-Named attrs internal_virtual s = (
    bytes "internal-virtual",
    configure_profile-IsCategorised env message attrs profiles.internal_virtual _ s,
  )
  apply_class-Named attrs internal_virtual_skip s = ([], fine refl)
  apply_class-Named attrs unknown s = ([], fine refl)

  if-Named :
      (iface : Text) (b : Bool) (m n : M Shaper (Bool × Option GoError)) (s : Shaper)
      → Named iface (m s).0.1
      → Named iface (n s).0.1
      → Named iface ((if b then m else n) s).0.1
  if-Named iface true m n s p q = p
  if-Named iface false m n s p q = q

  -- An error of `processLink` for a link that has attributes is a recoverable typed error that
  -- names the link's interface and a profile.
  process_link-Named :
      (only : Only) (attrs : LinkAttrs) (s : Shaper)
      → Named attrs.name
          (process_link env message profiles only (record { attrs = some attrs }) s).0.1
  unfolding process_link
  process_link-Named only attrs s =
      if-Named attrs.name (should_process_link only (some attrs))
        (classify env (some attrs) >>= λ class.
          apply_class env message profiles (some attrs) class >>= λ e. return (true, e))
        (return (false, none)) s
        (apply_class-Named attrs (classify env (some attrs) s).0 (classify env (some attrs) s).1)
        ([], fine refl)
