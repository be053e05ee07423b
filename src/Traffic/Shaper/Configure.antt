-- ===== src/Traffic/Shaper/Configure.antt =====
-- shaper_apply.go, `configureProfile`: the checks in front of the steps, the steps, and the
-- signature that is kept when they all succeed.
pub mod Params
pub mod Signatures
pub mod Categorised
pub mod Faults
use tcsss.Prelude.Int.{ℤ, pos, int_lt}
use tcsss.Prelude.{
  String, Bool, true, false, not, ◌||◌, ◌&&◌, Option, none, some, List, [], ◌∷◌, ◌++◌, M, ◌>>=◌,
  ◌>>◌, return, if◌then◌else◌,
}
use tcsss.Text.Ops.{Text, bytes, is_empty, text_eq}
use tcsss.Text.Number.{itoa, atoi}
use tcsss.Text.Maps.{lookup, insert}
use tcsss.Errors.{GoError, plain, typed, recoverable, ErrorContext, no_context, merge, new}
use tcsss.Traffic.Env.{
  Env, Result, ok, err, Link, LinkAttrs, attrs_of, link_by_name, History, ask, Shaper, call,
}
use tcsss.Traffic.Commands.{Message}
use tcsss.Traffic.Profiles.{ShapingProfile, make_signature}
use tcsss.Traffic.Ifb.{ifb_of}
use tcsss.Traffic.Shaper.Steps.{
  ProfileContext, configure_link_params_step, configure_root_qdisc_step,
  configure_ingress_and_ifb_step, ensure_offloads_step,
}

-- MinMTU, MaxMTU, MinQueueLen, MaxQueueLen of internal/config/constants.go.
abbrev pub min_mtu : ℤ
min_mtu = pos 68

abbrev pub max_mtu : ℤ
max_mtu = pos 65535

abbrev pub min_queue_len : ℤ
min_queue_len = pos 1

abbrev pub max_queue_len : ℤ
max_queue_len = pos 1000000

-- `wrapInterfaceError` of shaper_errors.go.
unfoldable pub wrap_interface_error : Option GoError → Text → Text → ErrorContext → Option GoError
unfolding merge new
wrap_interface_error none iface operation extras = none
wrap_interface_error (some e) iface operation extras =
    new recoverable (some e)
      (merge (record no_context { operation = operation; iface = iface }) extras)

-- The result of a function that returns a value and an error.
pub data Checked (A : Type 0) : Type 0 where
  accept : A → Checked A
  reject : Option GoError → Checked A

abbrev pub refuse : {A : Type 0} → String → Text → String → Text → Text → Checked A
refuse text iface operation profile_name value = reject (
    wrap_interface_error (some (plain (bytes text))) iface (bytes operation)
      (record no_context { profile = profile_name; value = value }))

abbrev pub outside : ℤ → ℤ → ℤ → Bool
outside lo hi value = int_lt value lo || int_lt hi value

unfoldable pub check_queue : Text → Text → Text → ℤ → Option ℤ → Checked (ℤ × ℤ)
check_queue iface profile_name queue_length mtu none =
    refuse "parse qlen" iface "parse_profile_queue" profile_name queue_length
check_queue iface profile_name queue_length mtu (some queue_len) =
    if outside min_queue_len max_queue_len queue_len
    then refuse "queue length out of range" iface "validate_profile_queue" profile_name queue_length
    else accept (mtu, queue_len)

unfoldable pub check_mtu : Text → Text → Text → Text → Option ℤ → Checked (ℤ × ℤ)
check_mtu iface profile_name mtu_str queue_length none =
    refuse "parse mtu" iface "parse_profile_mtu" profile_name mtu_str
check_mtu iface profile_name mtu_str queue_length (some mtu) =
    if outside min_mtu max_mtu mtu
    then refuse "mtu out of range" iface "validate_profile_mtu" profile_name mtu_str
    else check_queue iface profile_name queue_length mtu (atoi queue_length)

-- `parseProfileParameters`
unfoldable pub parse_profile_parameters : Text → Text → Text → Text → Checked (ℤ × ℤ)
unfolding check_mtu check_queue
parse_profile_parameters iface mtu_str queue_length profile_name =
    check_mtu iface profile_name mtu_str queue_length (atoi mtu_str)

-- `deriveProfileParameters`
unfoldable pub derive_profile_parameters : LinkAttrs → ShapingProfile → Text × Text
derive_profile_parameters attrs profile = (
  if is_empty profile.mtu_override then itoa attrs.mtu else profile.mtu_override,
  profile.queue_length,
)

abbrev is_up : Result (Option Link) → Bool
is_up (err e) = false
is_up (ok link) = elim (attrs_of link) [ none ↦ false | some a ↦ a.flag_up ]

abbrev same_signature : Option Text → Text → Bool
same_signature none sig = false
same_signature (some prev) sig = text_eq prev sig

-- `isAlreadyConfigured`
unfoldable pub is_already_configured : Env → Text → Text → M Shaper Bool
is_already_configured env iface sig s =
    if same_signature (lookup iface s.applied_signatures) sig
    then call
        (ask (λ h. env.named h (ifb_of iface)) (link_by_name (ifb_of iface)) >>= λ r.
          return (is_up r))
        s
    else (false, s)

-- What `buildProfileContext` returns: skip, the context, or an error.
pub data Built : Type 0 where
  skip : Built
  build : ProfileContext → Built
  fault : Option GoError → Built

-- The signature that describes what a profile asks for.
abbrev pub desired_signature : LinkAttrs → ShapingProfile → Text
desired_signature attrs profile =
    let (mtu_str, queue_length) = derive_profile_parameters attrs profile in
    make_signature mtu_str queue_length profile

abbrev pub context_of : LinkAttrs → ShapingProfile → Text → Checked (ℤ × ℤ) → Built
context_of attrs profile profile_name (reject e) = fault e
context_of attrs profile profile_name (accept (mtu, queue_len)) =
    let (mtu_str, queue_length) = derive_profile_parameters attrs profile in
    build (record {
      iface = attrs.name;
      attrs = attrs;
      profile = profile;
      profile_name = profile_name;
      mtu_str = mtu_str;
      queue_length = queue_length;
      desired_mtu = mtu;
      desired_queue_len = queue_len;
      signature = desired_signature attrs profile;
      ifb_name = ifb_of attrs.name;
    })

unfoldable pub build_from : Env → LinkAttrs → ShapingProfile → Text → M Shaper Built
build_from env attrs profile profile_name =
    let (mtu_str, queue_length) = derive_profile_parameters attrs profile in
    is_already_configured env attrs.name (desired_signature attrs profile) >>= λ done. return (
      if done
      then skip
      else context_of attrs profile profile_name
          (parse_profile_parameters attrs.name mtu_str queue_length profile_name))

abbrev pub missing : String → Text → Built
missing text profile_name =
    fault
      (new recoverable (some (plain (bytes text))) (record no_context { profile = profile_name }))

-- `buildProfileContext`, with `validateProfileInput` in front.
unfoldable pub build_profile_context :
    Env → Option LinkAttrs → ShapingProfile → Text → M Shaper Built
unfolding build_from new
build_profile_context env none profile profile_name =
    return (missing "link attrs missing for profile" profile_name)
build_profile_context env (some attrs) profile profile_name =
    if is_empty attrs.name
    then return (missing "link name missing for profile" profile_name)
    else build_from env attrs profile profile_name

-- `runProfileSteps`: the first error ends the loop.
unfoldable pub run_profile_steps : List (M History (Option GoError)) → M History (Option GoError)
run_profile_steps [] = return none
run_profile_steps (step ∷ steps) =
    step >>= λ e. elim e [ none ↦ run_profile_steps steps | some x ↦ return (some x) ]

module _ (env : Env) (message : Message) where
  abbrev pub profile_steps : ProfileContext → List (M History (Option GoError))
  profile_steps pc =
      configure_link_params_step env message pc
      ∷ configure_root_qdisc_step env message pc
      ∷ configure_ingress_and_ifb_step env message pc
      ∷ ensure_offloads_step env message pc
      ∷ []

  abbrev pub keep_signature : ProfileContext → Option GoError → M Shaper (Option GoError)
  keep_signature pc (some e) s = (some e, s)
  keep_signature pc none s =
      (none, record s { applied_signatures = insert pc.iface pc.signature s.applied_signatures })

  abbrev pub finish : Built → M Shaper (Option GoError)
  finish skip = return none
  finish (fault e) = return e
  finish (build pc) = call (run_profile_steps (profile_steps pc)) >>= keep_signature pc

  -- `configureProfile`
  unfoldable pub configure_profile :
      Option LinkAttrs → ShapingProfile → Text → M Shaper (Option GoError)
  configure_profile attrs profile profile_name =
      build_profile_context env attrs profile profile_name >>= finish
