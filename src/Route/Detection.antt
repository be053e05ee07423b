-- ===== src/Route/Detection.antt =====
-- internal/route/detection.go: the primary interface and the congestion control in use.
use tcsss.Prelude.Int.{ℤ, pos, int_le}
use tcsss.Prelude.{
  Bool, false, ◌||◌, Option, none, some, List, [], ◌∷◌, M, ◌>>=◌, return, if◌then◌else◌, is_some,
}
use tcsss.Text.Ops.{Text, bytes, is_empty, has_prefix, contains, text_eq, trim_space, split_from}
use tcsss.Errors.{plain}
use tcsss.Traffic.Env.{
  Env, Result, ok, err, Link, LinkAttrs, attrs_of, Route, v4, route_list, link_by_index, exec,
  read_file, Output, History, ask,
}
use tcsss.Route.Lines.{extract_device, is_virtual_name}
use tcsss.Route.Optimizer.{fetch_routes}

abbrev attrs_result : Result (Option Link) → Option LinkAttrs
attrs_result (err e) = none
attrs_result (ok link) = attrs_of link

-- `safeGetLinkAttrs` of deps.go; `none` is its error.
unfoldable safe_get_link_attrs : Env → ℤ → M History (Option LinkAttrs)
safe_get_link_attrs env index =
    ask (λ h. env.indexed h index) (link_by_index index) >>= λ r. return (attrs_result r)

abbrev usable_name : (Text → Bool) → Option LinkAttrs → Option Text
usable_name refused none = none
usable_name refused (some a) = if refused a.name then none else some a.name

-- The first device that the lines pass, in order.
unfoldable pub first_line : (Text → Option Text) → List Text → Option Text
unfolding trim_space
first_line choose [] = none
first_line choose (raw ∷ lines) =
    let rest = first_line choose lines in
    elim (choose (trim_space raw)) [ none ↦ rest | some nic ↦ some nic ]

-- A line of the first loop of `getPrimaryNICFromCommand`.
unfoldable pub default_device : Text → Option Text
unfolding has_prefix
default_device line = if has_prefix (bytes "default ") line then extract_device line else none

abbrev physical : Option Text → Option Text
physical none = none
physical (some nic) = if text_eq nic (bytes "lo") || is_virtual_name nic then none else some nic

-- A line of the second loop.
unfoldable pub physical_device : Text → Option Text
unfolding contains text_eq
physical_device line =
    if contains (bytes "linkdown") line then none else physical (extract_device line)

unfoldable pub choose_device : List Text → Option Text
unfolding first_line default_device physical_device
choose_device lines = elim (first_line default_device lines) [
  | some nic ↦ some nic
  | none ↦ first_line physical_device lines
]

module _ (env : Env) where
  -- A loop of `getPrimaryNICFromNetlink`: the routes that pass `skip` are not looked up.
  unfoldable pub first_name : (Route → Bool) → (Text → Bool) → List Route → M History (Option Text)
  unfolding safe_get_link_attrs
  first_name skip refused [] = return none
  first_name skip refused (route ∷ routes) =
      if skip route || int_le route.link_index (pos 0)
      then first_name skip refused routes
      else (safe_get_link_attrs env route.link_index >>= λ a. elim (usable_name refused a) [
        | some name ↦ return (some name)
        | none ↦ first_name skip refused routes
      ])

  abbrev second_loop : List Route → Option Text → M History (Option Text)
  second_loop routes (some name) = return (some name)
  second_loop routes none = first_name (λ _. false) is_virtual_name routes

  abbrev search_routes : Result (List Route) → M History (Option Text)
  search_routes (err e) = return none
  search_routes (ok routes) = first_name (λ r. is_some r.dst) is_empty routes >>= second_loop routes

  -- `getPrimaryNICFromNetlink`; `none` is its error.
  unfoldable pub get_primary_nic_from_netlink : M History (Option Text)
  unfolding first_name is_virtual_name
  get_primary_nic_from_netlink = ask (λ h. env.routes h v4) (route_list v4) >>= search_routes

  abbrev chosen : Result (List Text) → Result Text
  chosen (err e) = err e
  chosen (ok lines) = elim (choose_device lines) [
    | some nic ↦ ok nic
    | none ↦ err (plain (bytes "no suitable network interface found"))
  ]

  -- `getPrimaryNICFromCommand`
  unfoldable pub get_primary_nic_from_command : M History (Result Text)
  unfolding fetch_routes choose_device
  get_primary_nic_from_command =
      fetch_routes env (bytes "route" ∷ bytes "show" ∷ []) >>= λ r. return (chosen r)

  -- `getPrimaryNIC`, with a netlink client.
  unfoldable pub get_primary_nic : M History (Result Text)
  unfolding get_primary_nic_from_netlink get_primary_nic_from_command
  get_primary_nic = get_primary_nic_from_netlink >>= λ found. elim found [
    | some nic ↦ return (ok nic)
    | none ↦ get_primary_nic_from_command
  ]

  abbrev sysctl_value : List Text → Option Text
  sysctl_value (k ∷ v ∷ []) = some (trim_space v)
  sysctl_value _ = none

  abbrev of_sysctl : Output → Option Text
  of_sysctl output = elim output.failure [
    | some e ↦ none
    | none ↦ sysctl_value (split_from 0 (bytes " = ") (trim_space output.text))
  ]

  abbrev of_file : Option Text → Option Text
  of_file none = none
  of_file (some content) = if is_empty (trim_space content) then none else some (trim_space content)

  -- `getCurrentCongestionControl`; `none` is its error.
  unfoldable pub get_current_congestion_control : M History (Option Text)
  unfolding split_from trim_space
  get_current_congestion_control =
      let args : List Text = bytes "net.ipv4.tcp_congestion_control" ∷ [] in
      let path : Text = bytes "/proc/sys/net/ipv4/tcp_congestion_control" in
      ask (λ h. env.run h (bytes "sysctl") args) (exec (bytes "sysctl") args) >>= λ output.
      elim (of_sysctl output) [
        | some congctl ↦ return (some congctl)
        | none ↦
            (ask (λ h. env.content h path) (read_file path) >>= λ content. return (of_file content))
      ]
