-- ===== src/Traffic/Shaper/Configure/Categorised.antt =====
-- Every error of `configureProfile` is a categorised one that names the interface.
use tcsss.Prelude.{
  ◌≡◌, refl, ◌∙◌, String, ◌&&◌, Bool, true, false, Option, none, some, List, [], ◌∷◌, M, ◌>>=◌,
  return, if◌then◌else◌,
}
use tcsss.Prelude.Int.{int_eq}
use tcsss.Text.Ops.{Text, bytes, is_empty}
use tcsss.Errors.{GoError, wrapped, recoverable, typed, ErrorContext, wrap_recoverable}
use tcsss.Errors.Laws.{override_right}
use tcsss.Traffic.Env.{Env, Result, ok, err, Link, History, ask, link_by_name}
use tcsss.Traffic.Commands.{
  Message, run, replace_args, root_qdisc_config, ingress_qdisc_config, replace_filter,
}
use tcsss.Traffic.Shaper.Steps.{
  ProfileContext, at_profile, fail, try, set_params, set_link_mtu, set_link_tx_qlen,
  configure_filter, configure_ifb_root, configure_link_params_step, configure_root_qdisc_step,
  configure_ingress_and_ifb_step, ensure_offloads_step, redirect_filter,
}
use tcsss.Traffic.Ifb.{ensure_ifb}
use tcsss.Traffic.Shaper.Configure.{run_profile_steps, profile_steps}

-- No error, or a recoverable one whose context has the interface and the profile.
pub data IsCategorised (iface profile : Text) (e : Option GoError) : Type 0 where
  fine : e ≡ none → IsCategorised iface profile e
  names :
      (cause : GoError) (context : ErrorContext)
      → e ≡ some (typed recoverable cause context)
      → context.iface ≡ iface
      → context.profile ≡ profile
      → IsCategorised iface profile e

wrap-IsCategorised :
    {iface profile : Text} (cause : GoError) (operation : Text) (context : ErrorContext)
    → context.iface ≡ iface
    → context.profile ≡ profile
    → IsCategorised iface profile (wrap_recoverable (some cause) operation (context ∷ []))
unfolding wrap_recoverable
wrap-IsCategorised cause operation context i p =
    names cause _ refl (override_right context.iface ∙ i) (override_right context.profile ∙ p)

-- A step that has given `r`, then the rest.
after-IsCategorised :
    (iface profile : Text) (wrap : GoError → Option GoError) (rest : M History (Option GoError))
    (r : Option GoError × History)
    → ((e : GoError) → IsCategorised iface profile (wrap e))
    → ((k : History) → IsCategorised iface profile (rest k).0)
    → IsCategorised iface profile (try (λ h. r) wrap rest r.1).0
after-IsCategorised iface profile wrap rest (none, k) w f = f k
after-IsCategorised iface profile wrap rest (some e, k) w f = w e

try-IsCategorised :
    (iface profile : Text) (step : M History (Option GoError)) (wrap : GoError → Option GoError)
    (rest : M History (Option GoError)) (h : History)
    → ((e : GoError) → IsCategorised iface profile (wrap e))
    → ((k : History) → IsCategorised iface profile (rest k).0)
    → IsCategorised iface profile (try step wrap rest h).0
try-IsCategorised iface profile step wrap rest h w f =
    after-IsCategorised iface profile wrap rest (step h) w f

if-IsCategorised :
    (iface profile : Text) (b : Bool) (yes' no' : M History (Option GoError)) (h : History)
    → IsCategorised iface profile (yes' h).0
    → IsCategorised iface profile (no' h).0
    → IsCategorised iface profile ((if b then yes' else no') h).0
if-IsCategorised iface profile true t f h x y = x
if-IsCategorised iface profile false t f h x y = y

module _ (env : Env) (message : Message) (pc : ProfileContext) where
  abbrev pub Fine : Option GoError → Type 0
  Fine = IsCategorised pc.iface pc.profile_name

  -- A context that adds fields to those of the profile.
  fail-Fine :
      (text : String) (e : GoError) (operation : String) (context : ErrorContext)
      → context.iface ≡ pc.iface
      → context.profile ≡ pc.profile_name
      → Fine (fail text e operation context)
  fail-Fine text e operation context i p =
      wrap-IsCategorised (wrapped (bytes text) e) (bytes operation) context i p

  try-Fine :
      (step : M History (Option GoError)) (text operation : String) (context : ErrorContext)
      (rest : M History (Option GoError)) (h : History)
      → context.iface ≡ pc.iface
      → context.profile ≡ pc.profile_name
      → ((k : History) → Fine (rest k).0)
      → Fine (try step (λ e. fail text e operation context) rest h).0
  try-Fine step text operation context rest h i p f =
      after-IsCategorised pc.iface pc.profile_name (λ e. fail text e operation context) rest
        (step h) (λ e. fail-Fine text e operation context i p) f

  set_params-Fine :
      (r : Result (Option Link)) (h : History) → Fine (set_params env message pc r h).0
  unfolding set_params
  set_params-Fine (err e) h =
      fail-Fine "lookup link" e "configure_link_params" (at_profile pc) refl refl
  set_params-Fine (ok link) h =
      try-Fine (set_link_mtu env message pc link) "set mtu" "configure_link_params"
        (record (at_profile pc) { value = pc.mtu_str })
        (try (set_link_tx_qlen env message pc link)
          (λ e.
            fail "set tx queue len" e "configure_link_params"
              (record (at_profile pc) { value = pc.queue_length }))
          (return none))
        h refl refl
        (λ k.
          try-Fine (set_link_tx_qlen env message pc link) "set tx queue len" "configure_link_params"
            (record (at_profile pc) { value = pc.queue_length }) (return none) k refl refl
            (λ m. fine refl))

  params-Fine : (h : History) → Fine (configure_link_params_step env message pc h).0
  unfolding configure_link_params_step
  params-Fine h =
      if-IsCategorised pc.iface pc.profile_name
        (int_eq pc.attrs.mtu pc.desired_mtu && int_eq pc.attrs.tx_qlen pc.desired_queue_len)
        (return none)
        (ask (λ h'. env.named h' pc.iface) (link_by_name pc.iface) >>= set_params env message pc) h
        (fine refl) (set_params-Fine (env.named h pc.iface) _)

  root-Fine : (h : History) → Fine (configure_root_qdisc_step env message pc h).0
  unfolding configure_root_qdisc_step
  root-Fine h =
      let step =
        run env message (bytes "tc")
          (replace_args (root_qdisc_config pc.iface pc.profile.root_qdisc)) in
      let context = record (at_profile pc) { command = bytes "tc qdisc replace root" } in
      if-IsCategorised pc.iface pc.profile_name (is_empty pc.profile.root_qdisc) (return none)
        (try step (λ e. fail "configure root qdisc" e "configure_root_qdisc" context) (return none))
        h (fine refl)
        (try-Fine step "configure root qdisc" "configure_root_qdisc" context (return none) h refl
          refl (λ k. fine refl))

  filter-Fine : (h : History) → Fine (configure_filter env message pc h).0
  unfolding configure_filter
  filter-Fine h =
      try-Fine (replace_filter env message (redirect_filter env message pc)) "replace filter"
        "configure_tc_filter"
        (record (at_profile pc) { ifb = pc.ifb_name; command = bytes "tc filter replace" })
        (return none) h refl refl (λ k. fine refl)

  ifb_root-Fine : (h : History) → Fine (configure_ifb_root env message pc h).0
  unfolding configure_ifb_root
  ifb_root-Fine h =
      let step =
        run env message (bytes "tc")
          (replace_args (root_qdisc_config pc.ifb_name pc.profile.ifb_qdisc)) in
      let context = record (at_profile pc) {
        ifb = pc.ifb_name;
        command = bytes "tc qdisc replace ifb";
      } in
      if-IsCategorised pc.iface pc.profile_name (is_empty pc.profile.ifb_qdisc)
        (configure_filter env message pc)
        (try step (λ e. fail "configure ifb root qdisc" e "configure_ifb_root_qdisc" context)
          (configure_filter env message pc))
        h (filter-Fine h)
        (try-Fine step "configure ifb root qdisc" "configure_ifb_root_qdisc" context
          (configure_filter env message pc) h refl refl filter-Fine)

  ingress-Fine : (h : History) → Fine (configure_ingress_and_ifb_step env message pc h).0
  unfolding configure_ingress_and_ifb_step
  ingress-Fine h =
      let ensure = ensure_ifb env message pc.ifb_name pc.mtu_str pc.queue_length in
      let context = record (at_profile pc) { ifb = pc.ifb_name } in
      try-Fine (run env message (bytes "tc") (replace_args (ingress_qdisc_config pc.iface)))
        "configure ingress qdisc" "configure_ingress_qdisc"
        (record (at_profile pc) { command = bytes "tc qdisc replace ingress" })
        (try ensure (λ e. fail "ensure ifb" e "ensure_ifb" context)
          (configure_ifb_root env message pc))
        h refl refl
        (λ k.
          try-Fine ensure "ensure ifb" "ensure_ifb" context (configure_ifb_root env message pc) k
            refl refl ifb_root-Fine)

  offloads-Fine : (h : History) → Fine (ensure_offloads_step env message pc h).0
  unfolding ensure_offloads_step
  offloads-Fine h = fine refl

  -- What a step has given decides whether the rest runs.
  next-Fine :
      (rest : M History (Option GoError)) (r : Option GoError × History)
      → Fine r.0
      → ((h : History) → Fine (rest h).0)
      → Fine
          (elim r.0 as (λ e. M History (Option GoError)) [ none ↦ rest | some x ↦ return (some x) ]
            r.1).0
  next-Fine rest (none, k) f g = g k
  next-Fine rest (some e, k) f g = f

  run-Fine :
      (step : M History (Option GoError)) (steps : List (M History (Option GoError)))
      → ((h : History) → Fine (step h).0)
      → ((h : History) → Fine (run_profile_steps steps h).0)
      → (h : History) → Fine (run_profile_steps (step ∷ steps) h).0
  unfolding run_profile_steps
  run-Fine step steps f g h = next-Fine (run_profile_steps steps) (step h) (f h) g

  nil-Fine : (h : History) → Fine (run_profile_steps [] h).0
  unfolding run_profile_steps
  nil-Fine h = fine refl

  pub profile_steps-Fine :
      (h : History) → Fine (run_profile_steps (profile_steps env message pc) h).0
  profile_steps-Fine = run-Fine (configure_link_params_step env message pc) _ params-Fine (
      run-Fine (configure_root_qdisc_step env message pc) _ root-Fine (
        run-Fine (configure_ingress_and_ifb_step env message pc) _ ingress-Fine
          (run-Fine (ensure_offloads_step env message pc) [] offloads-Fine nil-Fine)))
