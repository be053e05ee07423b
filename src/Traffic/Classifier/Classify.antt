-- ===== src/Traffic/Classifier/Classify.antt =====
-- classifier.go: `Classify`.
pub mod Cache
use tcsss.Prelude.{
  Bool, true, false, ◌||◌, Option, none, some, List, [], ◌∷◌, ◌++◌, M, ◌>>=◌, return, if◌then◌else◌,
  any,
}
use tcsss.Prelude.Int.{ℤ, pos, int_eq, int_le}
use tcsss.Text.Ops.{Text, is_empty}
use tcsss.Traffic.Env.{Env, LinkAttrs, Shaper}
use tcsss.Traffic.Classifier.Patterns.{has_internal_virtual_prefix, has_external_virtual_prefix}
use tcsss.Traffic.Classifier.Detect.{is_virtual_interface}

pub data IfaceClass : Type 0 where
  unknown loopback external_physical external_virtual : IfaceClass
  internal_virtual internal_virtual_skip : IfaceClass

-- `isExternalInterface`
unfoldable pub is_external_interface : ℤ → Text → Shaper → Bool
is_external_interface link_index name s =
    if has_external_virtual_prefix name
    then true
    else if int_le link_index (pos 0)
    then false
    else any (int_eq link_index) s.external_link_indexes

-- The last decision of `Classify`.
unfoldable pub combine : Bool → Bool → IfaceClass
combine is_external is_virtual =
    if is_external
    then (if is_virtual then external_virtual else external_physical)
    else if is_virtual
    then internal_virtual
    else external_physical

classify_attrs : Env → LinkAttrs → M Shaper IfaceClass
classify_attrs env attrs s =
    if attrs.flag_loopback
    then (loopback, s)
    else if is_empty attrs.name
    then (unknown, s)
    else if has_internal_virtual_prefix attrs.name
    then (internal_virtual_skip, s)
    else let (is_virtual, t) = is_virtual_interface env attrs.name s in
      (combine (is_external_interface attrs.index attrs.name t) is_virtual, t)

-- `Classify`
unfoldable pub classify : Env → Option LinkAttrs → M Shaper IfaceClass
unfolding classify_attrs
classify env none = return unknown
classify env (some attrs) = classify_attrs env attrs
