-- ===== src/Traffic/Ifb.antt =====
-- ifb_manager.go: the ifb devices that mirror ingress traffic (`truncateIfb`, `ensureIfb`,
-- `pruneStaleIfbs`, `cleanupSkippedVirtualInterfaces`).
pub mod Names
pub mod Prune
use tcsss.Prelude.Int.{ℤ, int_eq}
use tcsss.Prelude.{
  ℕ, String, Bool, true, false, not, ◌||◌, ◌&&◌, Option, none, some, List, [], ◌∷◌, ◌++◌, map, M,
  ◌>>=◌, ◌>>◌, return, if◌then◌else◌, length, take, leb,
}
use tcsss.Text.Ops.{Text, bytes, is_empty, has_prefix, mem}
use tcsss.Text.Number.{atoi}
use tcsss.Errors.{
  GoError, plain, wrapped, typed, recoverable, ErrorContext, no_context, holds, is_link_not_found,
}
use tcsss.Traffic.Env.{
  Env, Result, ok, err, Link, LinkAttrs, attrs_of, link_by_name, link_del, History, ask,
}
use tcsss.Traffic.Commands.{Message, run, ifb_prefix, ingress_handle}
use tcsss.Traffic.Classifier.Patterns.{has_internal_virtual_prefix}

-- `truncateIfb`
unfoldable pub truncate_ifb : Text → Text
truncate_ifb name = if leb (length name) 15 then name else take 15 name

-- `truncateIfb(IfbPrefix + name)`
abbrev pub ifb_of : Text → Text
ifb_of name = truncate_ifb (ifb_prefix ++ name)

abbrev ip : List Text → List Text
ip args = bytes "link" ∷ args

-- `terr.New(terr.CategoryRecoverable, ...)`
abbrev fail : GoError → ErrorContext → Option GoError
fail e ctx = some (typed recoverable e ctx)

abbrev at_ifb : Text → ErrorContext
at_ifb name = record no_context { ifb = name }

abbrev at_command : Text → String → ErrorContext
at_command name command = record no_context { ifb = name; command = bytes command }

-- The test of `pruneStaleIfbs`.
abbrev pub is_stale : List Text → Text → Bool
is_stale required name = has_prefix ifb_prefix name && not (mem name required)

module _ (env : Env) (message : Message) where
  abbrev ask_link : Text → M History (Result (Option Link))
  ask_link name = ask (λ h. env.named h name) (link_by_name name)

  -- The device is brought up where it is down.
  bring_up : Text → LinkAttrs → M History (Option GoError)
  unfolding run
  bring_up name attrs =
      if attrs.flag_up
      then return none
      else run env message (bytes "ip") (ip (bytes "set" ∷ name ∷ bytes "up" ∷ [])) >>= λ e.
          return (elim e [
            | none ↦ none
            | some x ↦ fail (wrapped (bytes "set ifb up") x) (at_command name "ip link set up")
          ])

  -- `refreshed`, where it was read and has attributes, else what was known.
  abbrev refreshed_or : LinkAttrs → Result (Option Link) → LinkAttrs
  refreshed_or attrs (err e) = attrs
  refreshed_or attrs (ok link) = elim (attrs_of link) [ none ↦ attrs | some a ↦ a ]

  abbrev after_update : Text → LinkAttrs → Option GoError → M History (Option GoError)
  after_update name attrs none = ask_link name >>= λ r. bring_up name (refreshed_or attrs r)
  after_update name attrs (some x) =
      return (fail (wrapped (bytes "update ifb parameters") x) (at_command name "ip link set"))

  -- MTU and queue length are set where one of them differs.
  update : Text → Text → Text → LinkAttrs → ℤ → ℤ → M History (Option GoError)
  unfolding run bring_up
  update name mtu qlen attrs desired_mtu desired_queue_len =
      if not (int_eq attrs.mtu desired_mtu) || not (int_eq attrs.tx_qlen desired_queue_len)
      then run env message (bytes "ip")
          (ip (bytes "set" ∷ name ∷ bytes "qlen" ∷ qlen ∷ bytes "mtu" ∷ mtu ∷ []))
        >>= after_update name attrs
      else bring_up name attrs

  with_queue_len : Text → Text → Text → LinkAttrs → ℤ → Option ℤ → M History (Option GoError)
  unfolding update
  with_queue_len name mtu qlen attrs desired_mtu none =
      return (fail (plain (bytes "parse qlen")) (record no_context { ifb = name; value = qlen }))
  with_queue_len name mtu qlen attrs desired_mtu (some desired_queue_len) =
      update name mtu qlen attrs desired_mtu desired_queue_len

  with_mtu : Text → Text → Text → LinkAttrs → Option ℤ → M History (Option GoError)
  unfolding with_queue_len atoi
  with_mtu name mtu qlen attrs none =
      return (fail (plain (bytes "parse mtu")) (record no_context { ifb = name; value = mtu }))
  with_mtu name mtu qlen attrs (some desired_mtu) =
      with_queue_len name mtu qlen attrs desired_mtu (atoi qlen)

  with_attrs : Text → Text → Text → Option LinkAttrs → M History (Option GoError)
  unfolding with_mtu
  with_attrs name mtu qlen none = return (fail (plain (bytes "link attrs missing")) (at_ifb name))
  with_attrs name mtu qlen (some attrs) = with_mtu name mtu qlen attrs (atoi mtu)

  after_create : Text → Text → Text → Result (Option Link) → M History (Option GoError)
  unfolding with_attrs
  after_create name mtu qlen (ok link) = with_attrs name mtu qlen (attrs_of link)
  after_create name mtu qlen (err e) = return (
      fail (wrapped (bytes "lookup ifb after create") e)
        (record no_context { ifb = name; operation = bytes "link_lookup_post_create" }))

  create : Text → Text → Text → Option GoError → M History (Option GoError)
  unfolding after_create
  create name mtu qlen none = ask_link name >>= after_create name mtu qlen
  create name mtu qlen (some x) =
      return (fail (wrapped (bytes "create ifb") x) (at_command name "ip link add"))

  found : Text → Text → Text → Result (Option Link) → M History (Option GoError)
  unfolding with_attrs create run
  found name mtu qlen (ok link) = with_attrs name mtu qlen (attrs_of link)
  found name mtu qlen (err e) =
      if holds is_link_not_found e
      then run env message (bytes "ip")
          (ip (bytes "add" ∷ bytes "name" ∷ name ∷ bytes "type" ∷ bytes "ifb" ∷ []))
        >>= create name mtu qlen
      else return (
          fail (wrapped (bytes "lookup ifb") e)
            (record no_context { ifb = name; operation = bytes "link_lookup" }))

  -- `ensureIfb`
  unfoldable pub ensure_ifb : Text → Text → Text → M History (Option GoError)
  unfolding found
  ensure_ifb name mtu qlen = ask_link name >>= found name mtu qlen

  pub delete_link : Text → Link → M History (Unit {0})
  delete_link name link = ask (λ h. env.delete h link) (link_del link) >>= λ failed. elim failed [
    | none ↦ return tt
    | some e ↦ run env message (bytes "ip") (ip (bytes "del" ∷ name ∷ [])) >> return tt
  ]

  abbrev pub prune_attrs : List Text → Link → Option LinkAttrs → M History (Unit {0})
  prune_attrs required link none = return tt
  prune_attrs required link (some a) =
      if is_stale required a.name then delete_link a.name link else return tt

  -- `pruneStaleIfbs`, which always returns nil.
  unfoldable pub prune_stale_ifbs : List Link → List Text → M History (Option GoError)
  prune_stale_ifbs [] required = return none
  prune_stale_ifbs (link ∷ links) required =
      prune_attrs required link link.attrs >> prune_stale_ifbs links required

  -- The three commands for an interface; their errors are logged only.
  clean_interface : Text → M History (Unit {0})
  unfolding run truncate_ifb
  clean_interface name = do
    run env message (bytes "tc")
        (bytes "qdisc" ∷ bytes "del" ∷ bytes "dev" ∷ name ∷ bytes "root" ∷ [])
    run env message (bytes "tc") (
        bytes "qdisc"
        ∷ bytes "del"
        ∷ bytes "dev"
        ∷ name
        ∷ bytes "handle"
        ∷ ingress_handle
        ∷ bytes "ingress"
        ∷ [])
    run env message (bytes "ip") (ip (bytes "del" ∷ ifb_of name ∷ []))
    return tt

  -- An interface that `cleanupSkippedVirtualInterfaces` cleans.
  unfoldable pub is_skipped : LinkAttrs → Bool
  unfolding has_prefix
  is_skipped a =
      not (has_prefix (bytes "ifb") a.name || a.flag_loopback) && has_internal_virtual_prefix a.name

  clean_link : Link → M History (Unit {0})
  unfolding clean_interface is_skipped
  clean_link link = elim link.attrs [
    | none ↦ return tt
    | some a ↦ (if is_skipped a then clean_interface a.name else return tt)
  ]

  -- `cleanupSkippedVirtualInterfaces`, which always returns nil.
  unfoldable pub cleanup_skipped_virtual_interfaces : List Link → M History (Option GoError)
  unfolding clean_link
  cleanup_skipped_virtual_interfaces [] = return none
  cleanup_skipped_virtual_interfaces (link ∷ links) =
      clean_link link >> cleanup_skipped_virtual_interfaces links
