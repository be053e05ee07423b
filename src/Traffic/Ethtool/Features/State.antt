-- ===== src/Traffic/Ethtool/Features/State.antt =====
-- The state that is read from a line of `ethtool -k`.
use tcsss.Prelude.{◌≡◌, refl, true, ◌∷◌, ◌++◌, [], arith}
use tcsss.Text.Ops.{Text, bytes, contains, has_prefix, to_lower}
use tcsss.Text.Maps.{has_prefix-append}
use tcsss.Traffic.Ethtool.Features.{value_state}

contains_prefix : (sub s : Text) → has_prefix sub s ≡ true → contains sub s ≡ true
unfolding contains
contains_prefix sub [] h = h
contains_prefix sub (c ∷ s) h = rw h refl

contains-append : (sub before behind : Text) → contains sub (before ++ (sub ++ behind)) ≡ true
unfolding contains
contains-append sub [] behind = contains_prefix sub (sub ++ behind) (has_prefix-append sub behind)
contains-append sub (c ∷ before) behind = ground (arith, contains-append sub before behind)

to_lower-append : (s t : Text) → to_lower (s ++ t) ≡ to_lower s ++ to_lower t
unfolding to_lower
to_lower-append [] t = refl
to_lower-append (c ∷ s) t = rw (to_lower-append s t)

to_lower_on : (behind : Text) → to_lower (bytes "on" ++ behind) ≡ bytes "on" ++ to_lower behind
unfolding to_lower
to_lower_on behind = refl

-- A value with the letters `on` anywhere in it is read as the state `on`: also `off [requested on]`,
-- which `ethtool` prints for a feature that is off.
pub value_state_on :
    (before behind : Text) → value_state (before ++ (bytes "on" ++ behind)) ≡ bytes "on"
unfolding value_state
value_state_on before behind =
    rw (
      to_lower-append,
      to_lower_on,
      contains-append (bytes "on") (to_lower before) (to_lower behind),
    )
