-- ===== src/Tests/Classes.antt =====
-- Classification, ifb devices and offloads of the small machine.
use tcsss.Prelude.Int.{pos}
use tcsss.Prelude.{take, ◌↔◌, ◌≡◌, refl, ◌≤◌, true, none, some, [], ◌∷◌, ◌++◌, length}
use tcsss.Text.Ops.{bytes, has_prefix}
use tcsss.Text.Maps.{lookup}
use tcsss.Traffic.Env.{LinkAttrs, Env, initial}
use tcsss.Traffic.Commands.{ifb_prefix}
use tcsss.Traffic.Classifier.Refresh.{refresh_external_interfaces}
use tcsss.Traffic.Classifier.Refresh.Exact.{Rebuilt, before_listing, refresh-Rebuilt}
use tcsss.Traffic.Ifb.{ifb_of, prune_stale_ifbs}
use tcsss.Traffic.Ifb.Names.{ifb_of_faithful}
use tcsss.Traffic.Ifb.Prune.{deletions, prune_stale_ifbs-deletions}
use tcsss.Traffic.Profiles.{OffloadSetting, normalize_set_feature_name}
use tcsss.Traffic.Ethtool.Features.{Features, value_state, parse_features, map_desired_to_read_key}
use tcsss.Traffic.Ethtool.Features.State.{value_state_on}
use tcsss.Traffic.Ethtool.Ensure.{is_settled, features_of}
use tcsss.Tests.World.{eth0, eth0_link, ifb_link, no_message, machine}

abbrev tap0 : LinkAttrs
tap0 = record eth0 { name = bytes "tap0" }

refresh-Rebuilt_example :
    Rebuilt machine
      (before_listing machine [] none)
      (refresh_external_interfaces machine (initial [])).1
      (pos 2)
refresh-Rebuilt_example = refresh-Rebuilt machine (initial []) refl (pos 2)

ifb_of_faithful_example :
    (length (ifb_of (bytes "br-lan-guests")) ≤ 15)
    × (has_prefix ifb_prefix (ifb_of (bytes "br-lan-guests")) ≡ true)
    × ((ifb_of (bytes "br-lan-guests") ≡ ifb_of (bytes "br-lan-guest"))
        ↔ (take 11 (bytes "br-lan-guests") ≡ take 11 (bytes "br-lan-guest")))
ifb_of_faithful_example = ifb_of_faithful (bytes "br-lan-guests") (bytes "br-lan-guest")

prune_stale_ifbs-deletions_example :
    prune_stale_ifbs machine no_message (eth0_link ∷ ifb_link ∷ []) (bytes "ifb4eth0" ∷ []) [] ≡ (
      none,
      [] ++ deletions machine no_message (bytes "ifb4eth0" ∷ []) (eth0_link ∷ ifb_link ∷ []) [],
    )
prune_stale_ifbs-deletions_example =
    prune_stale_ifbs-deletions machine no_message (eth0_link ∷ ifb_link ∷ [])
      (bytes "ifb4eth0" ∷ []) []

value_state_on_example : value_state (bytes "off [requested on]") ≡ bytes "on"
value_state_on_example = value_state_on (bytes "off [requested ") (bytes "]")

abbrev tso_off : OffloadSetting
tso_off = record { feature = bytes "tso"; state = bytes "off" }

abbrev read : Features
read = record { states = (bytes "tcp-segmentation-offload", bytes "off") ∷ []; fixed = [] }

abbrev settled_machine : Env
settled_machine = record machine {
  run = λ h name args. record {
    text = bytes "Features for eth0:\ntcp-segmentation-offload: off\n";
    failure = none;
  };
}

reads :
    features_of (settled_machine.run [] (bytes "ethtool") (bytes "-k" ∷ bytes "eth0" ∷ []))
    ≡ some read
unfolding parse_features
reads = refl

tso_settled : is_settled read tso_off ≡ true
unfolding is_settled map_desired_to_read_key normalize_set_feature_name lookup
tso_settled = refl
