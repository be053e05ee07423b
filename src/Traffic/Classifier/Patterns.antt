-- ===== src/Traffic/Classifier/Patterns.antt =====
-- classifier_patterns.go and the text functions of classifier_detect.go.
use mathlib.Core.List.{reverse}
use tcsss.Prelude.{ℕ, Bool, false, ◌||◌, List, [], ◌∷◌, any, ◌==◌, if◌then◌else◌, map}
use tcsss.Text.Ops.{
  Text, bytes, has_prefix, contains, split, to_lower, trim_space, text_eq, is_empty,
}

abbrev pub virtual_vendor_ids : List Text
virtual_vendor_ids =
    map bytes ("0x1414" ∷ "0x15ad" ∷ "0x1af4" ∷ "0x1d0f" ∷ "0x1ae0" ∷ "0x1ec1" ∷ "0x5853" ∷ [])

abbrev pub virtual_driver_modules : List Text
virtual_driver_modules =
    map bytes
      ("ena" ∷ "gve" ∷ "hv_netvsc" ∷ "netvsc" ∷ "virtio_net" ∷ "virtio_pci" ∷ "vmxnet3" ∷ [])

abbrev pub internal_virtual_prefixes : List Text
internal_virtual_prefixes =
    map bytes ("br" ∷ "docker" ∷ "veth" ∷ "virbr" ∷ "fwbr" ∷ "fwpr" ∷ "fwln" ∷ "tap" ∷ [])

abbrev pub external_virtual_prefixes : List Text
external_virtual_prefixes = map bytes (
    "tun" ∷ "tap" ∷ "wg" ∷ "zt" ∷ "gre" ∷ "gretap" ∷ "sit" ∷ "vxlan" ∷ "macvlan" ∷ "macvtap"
    ∷ "ipvlan" ∷ [])

-- The loop of the two functions below.
unfoldable pub has_any_prefix : List Text → Text → Bool
unfolding has_prefix
has_any_prefix [] name = false
has_any_prefix (p ∷ ps) name = has_prefix p name || has_any_prefix ps name

unfoldable pub has_internal_virtual_prefix : Text → Bool
unfolding has_any_prefix
has_internal_virtual_prefix = has_any_prefix internal_virtual_prefixes

unfoldable pub has_external_virtual_prefix : Text → Bool
unfolding has_any_prefix
has_external_virtual_prefix = has_any_prefix external_virtual_prefixes

-- The test of one path segment.
abbrev is_virtual_segment : Text → Bool
is_virtual_segment segment =
    text_eq segment (bytes "virtio")
    || has_prefix (bytes "virtio") segment
    || text_eq segment (bytes "vmbus")

-- `isSysfsVirtualPath`
unfoldable pub is_sysfs_virtual_path : Text → Bool
unfolding contains split to_lower text_eq has_prefix
is_sysfs_virtual_path resolved =
    let lower = to_lower resolved in
    contains (bytes "/sys/devices/virtual/") lower || any is_virtual_segment (split b'/' lower)

abbrev dash_to_underscore : ℕ → ℕ
dash_to_underscore c = if c == b'-' then b'_' else c

-- `normalizeIdentifier`
unfoldable pub normalize_identifier : Text → Text
unfolding trim_space to_lower
normalize_identifier value = map dash_to_underscore (to_lower (trim_space value))

drop_slashes : Text → Text
drop_slashes [] = []
drop_slashes (c ∷ cs) = let rest = drop_slashes cs in if c == b'/' then rest else c ∷ cs

-- Up to the next slash.
first_part : Text → Text
first_part [] = []
first_part (c ∷ cs) = let rest = first_part cs in if c == b'/' then [] else c ∷ rest

-- `filepath.Base`, on the path reversed.
unfoldable pub path_base : Text → Text
unfolding drop_slashes first_part
path_base [] = bytes "."
path_base (c ∷ cs) =
    let name = reverse (first_part (drop_slashes (reverse (c ∷ cs)))) in
    if is_empty name then bytes "/" else name
