-- ===== src/Route/Lines.antt =====
-- The text functions of internal/route: detection.go and `cleanRouteLine` of optimizer.go.
pub mod Clean
pub mod Filters
use tcsss.Prelude.{
  ℕ, zero, suc, Bool, true, false, not, ◌||◌, ◌&&◌, Option, none, some, List, [], ◌∷◌, ◌++◌, map,
  if◌then◌else◌, any,
}
use tcsss.Text.Ops.{Text, bytes, is_empty, has_prefix, contains, text_eq, fields, split, join}

-- The search for `dev` in the fields of one line.
unfoldable pub device_in : List Text → Option Text
unfolding text_eq
device_in [] = none
device_in (x ∷ []) = none
device_in (x ∷ y ∷ r) =
    let rest = device_in (y ∷ r) in if text_eq x (bytes "dev") then some y else rest

-- `none` where Go's second result is false.
first_device : List Text → Option Text
unfolding device_in fields
first_device [] = none
first_device (line ∷ lines) =
    let rest = first_device lines in
    elim (device_in (fields line)) [ none ↦ rest | some d ↦ some d ]

-- `extractDevice`
unfoldable pub extract_device : Text → Option Text
unfolding first_device split
extract_device output = first_device (split b'\n' output)

abbrev pub names_device : Option Text → Text → Bool
names_device none name = false
names_device (some device) name = text_eq device name

-- `shouldOptimizeLocal`
unfoldable pub should_optimize_local : Text → Bool
should_optimize_local line =
    if is_empty line || not (has_prefix (bytes "local ") line)
    then false
    else if contains (bytes "broadcast") line
    then false
    else if contains (bytes "linkdown") line
    then false
    else not (names_device (extract_device line) (bytes "lo"))

-- `shouldOptimizeLoopback`
unfoldable pub should_optimize_loopback : Text → Bool
should_optimize_loopback line =
    if is_empty line || not (has_prefix (bytes "local ") line)
    then false
    else names_device (extract_device line) (bytes "lo")

-- `shouldOptimizeNIC`, the interface first.
unfoldable pub should_optimize_nic : Text → Text → Bool
should_optimize_nic nic line =
    if is_empty line || contains (bytes "linkdown") line || contains (bytes "congctl") line
    then false
    else names_device (extract_device line) nic

-- `isVirtualName`
unfoldable pub is_virtual_name : Text → Bool
unfolding has_prefix
is_virtual_name name =
    is_empty name
    || any (λ prefix. has_prefix prefix name)
        (bytes "docker" ∷ bytes "br-" ∷ bytes "veth" ∷ bytes "lo" ∷ [])

-- The keys that `cleanRouteLine` drops with the token behind them.
unfoldable pub is_window_key : Text → Bool
unfolding text_eq
is_window_key token =
    text_eq token (bytes "mtu")
    || text_eq token (bytes "initcwnd")
    || text_eq token (bytes "initrwnd")
    || text_eq token (bytes "fastopen_no_cookie")

abbrev is_lock : List Text → Bool
is_lock (a ∷ b ∷ r) = text_eq a (bytes "lock")
is_lock _ = false

-- `congctl lock x`
abbrev pub starts_congctl : Text → List Text → Bool
starts_congctl token rest = text_eq token (bytes "congctl") && is_lock rest

-- The loop of `cleanRouteLine`; `skip` tokens are still to be passed over.
unfoldable pub clean_from : ℕ → List Text → List Text
clean_from skip [] = []
clean_from (suc k) (token ∷ rest) = clean_from k rest
clean_from zero (token ∷ rest) =
    let after_key = clean_from 1 rest in
    let after_congctl = clean_from 2 rest in
    let kept = token ∷ clean_from zero rest in
    if is_window_key token
    then after_key
    else if starts_congctl token rest
    then after_congctl
    else kept

unfoldable pub clean_tokens : List Text → List Text
unfolding clean_from
clean_tokens = clean_from zero

-- `cleanRouteLine`
unfoldable pub clean_route_line : Text → Text
unfolding fields join clean_tokens
clean_route_line line = join (bytes " ") (clean_tokens (fields line))
