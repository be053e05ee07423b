-- ===== src/Traffic/Shaper/Configure/Faults.antt =====
-- shaper_apply.go, `configureProfile`: what its errors are, those of the checks and those of the steps.
use tcsss.Prelude.{
  ◌≡◌, refl, String, Bool, true, false, Option, none, some, return, ◌∙◌, [], ◌∷◌, if◌then◌else◌,
}
use tcsss.Prelude.Int.{ℤ}
use tcsss.Text.Ops.{Text, is_empty}
use tcsss.Text.Number.{atoi}
use tcsss.Errors.{GoError, merge, new}
use tcsss.Errors.Laws.{override_right}
use tcsss.Traffic.Env.{Env, LinkAttrs, Shaper}
use tcsss.Traffic.Commands.{Message}
use tcsss.Traffic.Profiles.{ShapingProfile}
use tcsss.Traffic.Shaper.Steps.{ProfileContext}
use tcsss.Traffic.Shaper.Configure.{
  Checked, accept, reject, refuse, outside, check_queue, check_mtu, min_mtu, max_mtu, min_queue_len,
  max_queue_len, parse_profile_parameters, derive_profile_parameters, Built, skip, build, fault,
  wrap_interface_error, context_of, build_profile_context, build_from, missing,
  is_already_configured, desired_signature, finish, keep_signature, configure_profile,
}
use tcsss.Traffic.Shaper.Configure.Categorised.{IsCategorised, fine, names, profile_steps-Fine}

-- What `parseProfileParameters` and `buildProfileContext` may give.
abbrev Rejects : Text → Text → Checked (ℤ × ℤ) → Type 0
Rejects iface profile (accept v) = IsCategorised iface profile none
Rejects iface profile (reject e) = IsCategorised iface profile e

abbrev Faults : Text → Text → Built → Type 0
Faults iface profile skip = IsCategorised iface profile none
Faults iface profile (fault e) = IsCategorised iface profile e
Faults iface profile (build pc) = (pc.iface ≡ iface) × (pc.profile_name ≡ profile)

refuse-Rejects :
    (text operation : String) (iface profile value : Text)
    → Rejects iface profile (refuse text iface operation profile value)
unfolding wrap_interface_error merge new
refuse-Rejects text operation iface profile value = names _ _ refl refl (override_right profile)

if-Rejects :
    (iface profile : Text) (b : Bool) (x y : Checked (ℤ × ℤ))
    → Rejects iface profile x
    → Rejects iface profile y
    → Rejects iface profile (if b then x else y)
if-Rejects iface profile true x y p q = p
if-Rejects iface profile false x y p q = q

check_queue-Rejects :
    (iface profile queue_length : Text) (mtu : ℤ) (r : Option ℤ)
    → Rejects iface profile (check_queue iface profile queue_length mtu r)
unfolding check_queue
check_queue-Rejects iface profile queue_length mtu none =
    refuse-Rejects "parse qlen" "parse_profile_queue" iface profile queue_length
check_queue-Rejects iface profile queue_length mtu (some queue_len) =
    if-Rejects iface profile (outside min_queue_len max_queue_len queue_len)
      (refuse "queue length out of range" iface "validate_profile_queue" profile queue_length)
      (accept (mtu, queue_len))
      (refuse-Rejects "queue length out of range" "validate_profile_queue" iface profile
        queue_length)
      (fine refl)

check_mtu-Rejects :
    (iface profile mtu_str queue_length : Text) (r : Option ℤ)
    → Rejects iface profile (check_mtu iface profile mtu_str queue_length r)
unfolding check_mtu
check_mtu-Rejects iface profile mtu_str queue_length none =
    refuse-Rejects "parse mtu" "parse_profile_mtu" iface profile mtu_str
check_mtu-Rejects iface profile mtu_str queue_length (some mtu) =
    if-Rejects iface profile (outside min_mtu max_mtu mtu)
      (refuse "mtu out of range" iface "validate_profile_mtu" profile mtu_str)
      (check_queue iface profile queue_length mtu (atoi queue_length))
      (refuse-Rejects "mtu out of range" "validate_profile_mtu" iface profile mtu_str)
      (check_queue-Rejects iface profile queue_length mtu (atoi queue_length))

context_of-Faults :
    (attrs : LinkAttrs) (profile : ShapingProfile) (profile_name : Text) (c : Checked (ℤ × ℤ))
    → Rejects attrs.name profile_name c
    → Faults attrs.name profile_name (context_of attrs profile profile_name c)
context_of-Faults attrs profile profile_name (accept v) p = (refl, refl)
context_of-Faults attrs profile profile_name (reject e) p = p

missing-Faults :
    (text : String) (iface profile_name : Text)
    → is_empty iface ≡ true
    → Faults iface profile_name (missing text profile_name)
unfolding new
missing-Faults text [] profile_name e = names _ _ refl refl refl
missing-Faults text (c ∷ t) profile_name e = cc

if-Faults :
    (iface profile : Text) (b : Bool) (x y : Built)
    → Faults iface profile x
    → Faults iface profile y
    → Faults iface profile (if b then x else y)
if-Faults iface profile true x y p q = p
if-Faults iface profile false x y p q = q

build_from-Faults :
    (env : Env) (attrs : LinkAttrs) (profile : ShapingProfile) (profile_name : Text) (s : Shaper)
    → Faults attrs.name profile_name (build_from env attrs profile profile_name s).0
unfolding build_from parse_profile_parameters
build_from-Faults env attrs profile profile_name s =
    let p = derive_profile_parameters attrs profile in
    let c = check_mtu attrs.name profile_name p.0 p.1 (atoi p.0) in
    if-Faults attrs.name profile_name
      (is_already_configured env attrs.name (desired_signature attrs profile) s).0 skip
      (context_of attrs profile profile_name c) (fine refl)
      (context_of-Faults attrs profile profile_name c
        (check_mtu-Rejects attrs.name profile_name p.0 p.1 (atoi p.0)))

from_name :
    (env : Env) (attrs : LinkAttrs) (profile : ShapingProfile) (profile_name : Text) (s : Shaper)
    (b : Bool)
    → is_empty attrs.name ≡ b
    → Faults attrs.name profile_name
        ((if b
            then return (missing "link name missing for profile" profile_name)
            else build_from env attrs profile profile_name)
          s).0
from_name env attrs profile profile_name s true e =
    missing-Faults "link name missing for profile" attrs.name profile_name e
from_name env attrs profile profile_name s false e =
    build_from-Faults env attrs profile profile_name s

build_profile_context-Faults :
    (env : Env) (attrs : LinkAttrs) (profile : ShapingProfile) (profile_name : Text) (s : Shaper)
    → Faults attrs.name profile_name
        (build_profile_context env (some attrs) profile profile_name s).0
unfolding build_profile_context
build_profile_context-Faults env attrs profile profile_name s =
    from_name env attrs profile profile_name s (is_empty attrs.name) refl

rename-IsCategorised :
    {iface profile iface' profile' : Text} {e : Option GoError}
    → iface ≡ iface'
    → profile ≡ profile'
    → IsCategorised iface profile e
    → IsCategorised iface' profile' e
rename-IsCategorised i p (fine f) = fine f
rename-IsCategorised i p (names cause context f j q) = names cause context f (j ∙ i) (q ∙ p)

keep-IsCategorised :
    (env : Env) (message : Message) (iface profile_name : Text) (pc : ProfileContext)
    (e : Option GoError) (s : Shaper)
    → IsCategorised iface profile_name e
    → IsCategorised iface profile_name (keep_signature env message pc e s).0
keep-IsCategorised env message iface profile_name pc none s c = c
keep-IsCategorised env message iface profile_name pc (some e) s c = c

finish-IsCategorised :
    (env : Env) (message : Message) (iface profile_name : Text) (b : Built) (s : Shaper)
    → Faults iface profile_name b
    → IsCategorised iface profile_name (finish env message b s).0
finish-IsCategorised env message iface profile_name skip s f = f
finish-IsCategorised env message iface profile_name (fault e) s f = f
finish-IsCategorised env message iface profile_name (build pc) s (i, p) =
    keep-IsCategorised env message iface profile_name pc _ _
      (rename-IsCategorised i p (profile_steps-Fine env message pc s.history))

-- For a link that has attributes, `configureProfile` returns no error, or a recoverable typed
-- error whose context has the link's name as interface and the name of the profile, whatever the
-- settings are and whatever the commands and the netlink calls answer.
pub configure_profile-IsCategorised :
    (env : Env) (message : Message) (attrs : LinkAttrs) (profile : ShapingProfile)
    (profile_name : Text) (s : Shaper)
    → IsCategorised attrs.name profile_name
        (configure_profile env message (some attrs) profile profile_name s).0
unfolding configure_profile
configure_profile-IsCategorised env message attrs profile profile_name s =
    let built = build_profile_context env (some attrs) profile profile_name s in
    finish-IsCategorised env message attrs.name profile_name built.0 built.1
      (build_profile_context-Faults env attrs profile profile_name s)
