-- ===== src/Traffic/Ethtool/Features.antt =====
-- `readEthtoolFeatures`, `mapDesiredToReadKey`: the output of `ethtool -k`.
pub mod State
use tcsss.Prelude.{Bool, true, false, ◌||◌, Option, none, some, List, [], ◌∷◌, ◌++◌, if◌then◌else◌}
use tcsss.Text.Ops.{
  Text, bytes, is_empty, contains, has_prefix, text_eq, to_lower, trim_space, split, cut,
}
use tcsss.Text.Maps.{insert}

-- The two maps that are built: states by key, and the keys that are marked as fixed.
pub record Features : Type 0 where
  pub states : List (Text × Text)
  pub fixed : List Text

-- The state of one feature line, from the text behind the colon.
unfoldable pub value_state : Text → Text
unfolding contains to_lower
value_state val =
    if contains (bytes "on") (to_lower val)
    then bytes "on"
    else if contains (bytes "off") (to_lower val)
    then bytes "off"
    else []

unfoldable pub is_fixed : Text → Bool
unfolding contains to_lower
is_fixed val = contains (bytes "[fixed]") (to_lower val)

unfoldable pub is_header : Text → Bool
unfolding has_prefix to_lower
is_header ln =
    has_prefix (bytes "features for ") (to_lower ln)
    || has_prefix (bytes "offload parameters for ") (to_lower ln)

add_value : Text → Text → Features → Features
unfolding insert value_state is_fixed
add_value key val f = record {
  states = insert key (value_state val) f.states;
  fixed = if is_fixed val then key ∷ f.fixed else f.fixed;
}

-- The body of the loop over the lines.
unfoldable pub add_line : Text → Features → Features
unfolding add_value cut trim_space is_header
add_line raw f =
    let ln = trim_space raw in
    if is_empty ln then f else if is_header ln then f else elim (cut b':' ln) [
      | none ↦ f
      | some (key, val) ↦ add_value (trim_space key) (trim_space val) f
    ]

unfoldable pub add_lines : List Text → Features → Features
unfolding add_line
add_lines [] f = f
add_lines (ln ∷ lns) f = add_lines lns (add_line ln f)

-- The two maps for an output that is not empty.
unfoldable pub parse_features : Text → Features
unfolding add_lines split
parse_features out = add_lines (split b'\n' out) (record { states = []; fixed = [] })

abbrev among : Text → List Text → Bool
among key [] = false
among key (n ∷ ns) = text_eq key n || among key ns

-- `mapDesiredToReadKey`
unfoldable pub map_desired_to_read_key : Text → Text
unfolding text_eq to_lower trim_space
map_desired_to_read_key name =
    let key = to_lower (trim_space name) in
    if among key (bytes "rx" ∷ bytes "rx-checksum" ∷ bytes "rx_checksum" ∷ [])
    then bytes "rx-checksumming"
    else if among key (bytes "tx" ∷ bytes "tx-checksum" ∷ bytes "tx_checksum" ∷ [])
    then bytes "tx-checksumming"
    else if among key (bytes "sg" ∷ bytes "scatter-gather" ∷ [])
    then bytes "scatter-gather"
    else if text_eq key (bytes "tso")
    then bytes "tcp-segmentation-offload"
    else if text_eq key (bytes "gso")
    then bytes "generic-segmentation-offload"
    else if text_eq key (bytes "gro")
    then bytes "generic-receive-offload"
    else if text_eq key (bytes "lro")
    then bytes "large-receive-offload"
    else if text_eq key (bytes "ufo")
    then bytes "udp-fragmentation-offload"
    else if text_eq key (bytes "tx-gso-partial")
    then bytes "tx-gso-partial"
    else if text_eq key (bytes "tx-scatter-gather")
    then bytes "tx-scatter-gather"
    else []
