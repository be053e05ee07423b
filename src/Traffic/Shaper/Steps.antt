-- ===== src/Traffic/Shaper/Steps.antt =====
-- shaper_steps.go: the four steps that configure one interface, in the context built for it.
use tcsss.Prelude.Int.{ℤ, int_eq}
use tcsss.Prelude.{String, ◌&&◌, Option, none, some, [], ◌∷◌, M, ◌>>=◌, ◌>>◌, return, if◌then◌else◌}
use tcsss.Text.Ops.{Text, bytes, is_empty}
use tcsss.Errors.{GoError, wrapped, ErrorContext, no_context, wrap_recoverable}
use tcsss.Traffic.Env.{
  Env, Result, ok, err, Link, LinkAttrs, link_by_name, link_set_mtu, link_set_tx_qlen, History, ask,
}
use tcsss.Traffic.Commands.{
  Message, run, replace_filter, replace_args, root_qdisc_config, ingress_qdisc_config, FilterConfig,
  ingress_handle,
}
use tcsss.Traffic.Profiles.{ShapingProfile}
use tcsss.Traffic.Ethtool.Ensure.{ensure_offloads}
use tcsss.Traffic.Ifb.{ensure_ifb}

pub record ProfileContext : Type 0 where
  pub iface : Text
  pub attrs : LinkAttrs
  pub profile : ShapingProfile
  pub profile_name : Text
  pub mtu_str : Text
  pub queue_length : Text
  pub desired_mtu : ℤ
  pub desired_queue_len : ℤ
  pub signature : Text
  pub ifb_name : Text

abbrev pub at_profile : ProfileContext → ErrorContext
at_profile pc = record no_context { iface = pc.iface; profile = pc.profile_name }

-- `return terr.WrapRecoverable(fmt.Errorf("...: %w", err), operation, context)` for an error.
abbrev pub fail : String → GoError → String → ErrorContext → Option GoError
fail text e operation context =
    wrap_recoverable (some (wrapped (bytes text) e)) (bytes operation) (context ∷ [])

-- `if err := step(); err != nil { return wrap(err) }`, then the rest.
abbrev pub try :
    M History (Option GoError)
    → (GoError → Option GoError)
    → M History (Option GoError)
    → M History (Option GoError)
try step wrap rest = step >>= λ e. elim e [ none ↦ rest | some x ↦ return (wrap x) ]

module _ (env : Env) (message : Message) (pc : ProfileContext) where
  unfoldable pub set_link_mtu : Option Link → M History (Option GoError)
  set_link_mtu link =
      if int_eq pc.attrs.mtu pc.desired_mtu
      then return none
      else ask (λ h. env.set_mtu h link pc.desired_mtu) (link_set_mtu link pc.desired_mtu)

  unfoldable pub set_link_tx_qlen : Option Link → M History (Option GoError)
  set_link_tx_qlen link =
      if int_eq pc.attrs.tx_qlen pc.desired_queue_len
      then return none
      else ask (λ h. env.set_tx_qlen h link pc.desired_queue_len)
          (link_set_tx_qlen link pc.desired_queue_len)

  unfoldable pub set_params : Result (Option Link) → M History (Option GoError)
  unfolding set_link_mtu set_link_tx_qlen wrap_recoverable
  set_params (err e) = return (fail "lookup link" e "configure_link_params" (at_profile pc))
  set_params (ok link) =
      try (set_link_mtu link)
        (λ e.
          fail "set mtu" e "configure_link_params" (record (at_profile pc) { value = pc.mtu_str }))
        (try (set_link_tx_qlen link)
          (λ e.
            fail "set tx queue len" e "configure_link_params"
              (record (at_profile pc) { value = pc.queue_length }))
          (return none))

  -- `configureLinkParamsStep`
  unfoldable pub configure_link_params_step : M History (Option GoError)
  unfolding set_params
  configure_link_params_step =
      if int_eq pc.attrs.mtu pc.desired_mtu && int_eq pc.attrs.tx_qlen pc.desired_queue_len
      then return none
      else ask (λ h. env.named h pc.iface) (link_by_name pc.iface) >>= set_params

  -- `configureRootQdiscStep`
  unfoldable pub configure_root_qdisc_step : M History (Option GoError)
  unfolding run replace_args root_qdisc_config wrap_recoverable
  configure_root_qdisc_step =
      if is_empty pc.profile.root_qdisc
      then return none
      else try
          (run env message (bytes "tc")
            (replace_args (root_qdisc_config pc.iface pc.profile.root_qdisc)))
          (λ e.
            fail "configure root qdisc" e "configure_root_qdisc"
              (record (at_profile pc) { command = bytes "tc qdisc replace root" }))
          (return none)

  -- The filter that sends ingress traffic to the ifb device.
  abbrev pub redirect_filter : FilterConfig
  redirect_filter = record {
    device = pc.iface;
    parent = ingress_handle;
    protocol = bytes "all";
    pref = bytes "1";
    kind = bytes "matchall";
    actions =
        bytes "action"
        ∷ bytes "mirred"
        ∷ bytes "egress"
        ∷ bytes "redirect"
        ∷ bytes "dev"
        ∷ pc.ifb_name
        ∷ [];
  }

  unfoldable pub configure_filter : M History (Option GoError)
  unfolding replace_filter wrap_recoverable
  configure_filter =
      try (replace_filter env message redirect_filter)
        (λ e.
          fail "replace filter" e "configure_tc_filter"
            (record (at_profile pc) { ifb = pc.ifb_name; command = bytes "tc filter replace" }))
        (return none)

  unfoldable pub configure_ifb_root : M History (Option GoError)
  unfolding run replace_args root_qdisc_config wrap_recoverable configure_filter
  configure_ifb_root =
      if is_empty pc.profile.ifb_qdisc
      then configure_filter
      else try
          (run env message (bytes "tc")
            (replace_args (root_qdisc_config pc.ifb_name pc.profile.ifb_qdisc)))
          (λ e.
            fail "configure ifb root qdisc" e "configure_ifb_root_qdisc" (record (at_profile pc) {
              ifb = pc.ifb_name;
              command = bytes "tc qdisc replace ifb";
            }))
          configure_filter

  -- `configureIngressAndIfbStep`
  unfoldable pub configure_ingress_and_ifb_step : M History (Option GoError)
  unfolding run replace_args ingress_qdisc_config wrap_recoverable configure_ifb_root
  configure_ingress_and_ifb_step =
      try (run env message (bytes "tc") (replace_args (ingress_qdisc_config pc.iface)))
        (λ e.
          fail "configure ingress qdisc" e "configure_ingress_qdisc"
            (record (at_profile pc) { command = bytes "tc qdisc replace ingress" }))
        (try (ensure_ifb env message pc.ifb_name pc.mtu_str pc.queue_length)
          (λ e. fail "ensure ifb" e "ensure_ifb" (record (at_profile pc) { ifb = pc.ifb_name }))
          configure_ifb_root)

  -- `ensureOffloadsStep`
  unfoldable pub ensure_offloads_step : M History (Option GoError)
  ensure_offloads_step = ensure_offloads env message pc.iface pc.profile.offloads >> return none
