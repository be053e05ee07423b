-- ===== src/Traffic/Profiles.antt =====
-- settings.go, profiles.go, signature.go, constants.go: what is to be configured on an interface.
pub mod Defaults
use tcsss.Prelude.Int.{ℤ, pos, negsuc, int_le}
use tcsss.Prelude.{ℕ, zero, suc, String, Bool, true, false, List, [], ◌∷◌, ◌++◌, map, if◌then◌else◌}
use tcsss.Text.Ops.{Text, bytes, concat, join, sort, to_lower, trim_space, text_eq, replace_all}
use tcsss.Route.Config.{WindowConfig, or_default, window_with_defaults}
use tcsss.Text.Number.{itoa, duration_string, micro_seconds}

-- Durations are in nanoseconds.
pub record ProfileSettings : Type 0 where
  pub default_queue_len : ℤ
  pub loopback_queue_len : ℤ
  pub loopback_mtu_override : ℤ
  pub internal_rtt : ℤ
  pub loopback_rtt : ℤ

pub record WatcherSettings : Type 0 where
  pub reapply_interval : ℤ
  pub cleanup_interval : ℤ
  pub apply_timeout : ℤ

pub record Settings : Type 0 where
  pub routes : WindowConfig
  pub watcher : WatcherSettings
  pub profiles : ProfileSettings

-- `Settings.withDefaults`
unfoldable pub with_defaults : Settings → Settings
unfolding window_with_defaults
with_defaults s = record {
  routes = window_with_defaults s.routes;
  watcher = record {
    reapply_interval = or_default s.watcher.reapply_interval (pos 2000000000);
    cleanup_interval = or_default s.watcher.cleanup_interval (pos 300000000000);
    apply_timeout = or_default s.watcher.apply_timeout (pos 45000000000);
  };
  profiles = record {
    default_queue_len = or_default s.profiles.default_queue_len (pos 10001);
    loopback_queue_len = or_default s.profiles.loopback_queue_len (pos 10000);
    loopback_mtu_override = or_default s.profiles.loopback_mtu_override (pos 65520);
    internal_rtt = or_default s.profiles.internal_rtt (pos 100000);
    loopback_rtt = or_default s.profiles.loopback_rtt (pos 20000);
  };
}

pub record OffloadSetting : Type 0 where
  pub feature : Text
  pub state : Text

pub record ShapingProfile : Type 0 where
  pub queue_length : Text
  pub root_qdisc : List Text
  pub ifb_qdisc : List Text
  pub offloads : List OffloadSetting
  pub mtu_override : Text

pub record ProfileSet : Type 0 where
  pub internal_virtual : ShapingProfile
  pub external_virtual : ShapingProfile
  pub external_physical : ShapingProfile
  pub loopback : ShapingProfile

abbrev offload : String → String → OffloadSetting
offload feature state = record { feature = bytes feature; state = bytes state }

abbrev pub offload_prefix : List OffloadSetting
offload_prefix =
    offload "rx" "on"
    ∷ offload "tx" "on"
    ∷ offload "sg" "off"
    ∷ offload "tso" "off"
    ∷ offload "gso" "off"
    ∷ []

abbrev pub offload_suffix : List OffloadSetting
offload_suffix =
    offload "lro" "off"
    ∷ offload "ufo" "off"
    ∷ offload "rx-checksum" "on"
    ∷ offload "tx-checksum" "on"
    ∷ offload "tx-scatter-gather" "off"
    ∷ offload "tx-gso-partial" "off"
    ∷ []

-- `offloadsWithGro`
unfoldable pub offloads_with_gro : Text → List OffloadSetting
offloads_with_gro state =
    offload_prefix ++ (record { feature = bytes "gro"; state = state } ∷ offload_suffix)

-- `renderDuration`
unfoldable pub render_duration : ℤ → Text
unfolding duration_string replace_all
render_duration (negsuc n) = bytes "0s"
render_duration (pos zero) = bytes "0s"
render_duration (pos (suc n)) = replace_all micro_seconds (bytes "us") (duration_string (suc n))

-- `newProfileSet`
unfoldable pub new_profile_set : ProfileSettings → ProfileSet
unfolding render_duration itoa offloads_with_gro
new_profile_set cfg =
    let queue = itoa cfg.default_queue_len in
    let internal_rtt = render_duration cfg.internal_rtt in
    let loopback_rtt = render_duration cfg.loopback_rtt in
    let internal_root : List Text =
      bytes "cake"
      ∷ bytes "unlimited"
      ∷ bytes "rtt"
      ∷ internal_rtt
      ∷ map bytes (
          "besteffort" ∷ "dual-srchost" ∷ "nonat" ∷ "nowash" ∷ "no-split-gso" ∷ "ack-filter" ∷ "raw"
          ∷ "egress" ∷ []) in
    let internal_ifb : List Text =
      bytes "cake"
      ∷ bytes "unlimited"
      ∷ bytes "rtt"
      ∷ internal_rtt
      ∷ map bytes (
          "diffserv4" ∷ "dual-dsthost" ∷ "nonat" ∷ "nowash" ∷ "no-split-gso" ∷ "no-ack-filter"
          ∷ "raw" ∷ "ingress" ∷ []) in
    let external_root : List Text = map bytes (
      "cake" ∷ "unlimited" ∷ "besteffort" ∷ "dual-srchost" ∷ "nonat" ∷ "nowash" ∷ "no-split-gso"
      ∷ "ack-filter" ∷ "ethernet" ∷ "egress" ∷ []) in
    let external_ifb : List Text = map bytes (
      "cake" ∷ "unlimited" ∷ "diffserv4" ∷ "dual-dsthost" ∷ "nonat" ∷ "nowash" ∷ "no-split-gso"
      ∷ "no-ack-filter" ∷ "ethernet" ∷ "ingress" ∷ []) in
    let loopback_root : List Text =
      bytes "cake"
      ∷ bytes "unlimited"
      ∷ bytes "rtt"
      ∷ loopback_rtt
      ∷ map bytes (
          "diffserv4" ∷ "dual-srchost" ∷ "nonat" ∷ "nowash" ∷ "no-split-gso"
          ∷ "ack-filter-aggressive" ∷ "raw" ∷ "egress" ∷ []) in
    let loopback_ifb : List Text =
      bytes "cake"
      ∷ bytes "unlimited"
      ∷ bytes "rtt"
      ∷ loopback_rtt
      ∷ map bytes (
          "diffserv4" ∷ "dual-dsthost" ∷ "nonat" ∷ "nowash" ∷ "no-split-gso" ∷ "no-ack-filter"
          ∷ "raw" ∷ "ingress" ∷ []) in
    record {
      internal_virtual = record {
        queue_length = queue;
        root_qdisc = internal_root;
        ifb_qdisc = internal_ifb;
        offloads = offloads_with_gro (bytes "off");
        mtu_override = [];
      };
      external_virtual = record {
        queue_length = queue;
        root_qdisc = external_root;
        ifb_qdisc = external_ifb;
        offloads = offloads_with_gro (bytes "off");
        mtu_override = [];
      };
      external_physical = record {
        queue_length = queue;
        root_qdisc = external_root;
        ifb_qdisc = external_ifb;
        offloads = offloads_with_gro (bytes "on");
        mtu_override = [];
      };
      loopback = record {
        queue_length = itoa cfg.loopback_queue_len;
        root_qdisc = loopback_root;
        ifb_qdisc = loopback_ifb;
        offloads = offloads_with_gro (bytes "off");
        mtu_override = itoa cfg.loopback_mtu_override;
      };
    }

-- `normalizeSetFeatureName` of ethtool_manager.go
unfoldable pub normalize_set_feature_name : Text → Text
unfolding to_lower trim_space text_eq
normalize_set_feature_name name =
    let key = to_lower (trim_space name) in
    if text_eq key (bytes "rx-checksum")
    then bytes "rx"
    else if text_eq key (bytes "rx_checksum")
    then bytes "rx"
    else if text_eq key (bytes "tx-checksum")
    then bytes "tx"
    else if text_eq key (bytes "tx_checksum")
    then bytes "tx"
    else key

abbrev offload_pair : OffloadSetting → Text
offload_pair o = normalize_set_feature_name o.feature ++ (b'=' ∷ to_lower o.state)

-- `makeSignature`
unfoldable pub make_signature : Text → Text → ShapingProfile → Text
unfolding join
make_signature mtu qlen profile = concat (
    bytes "mtu="
    ∷ mtu
    ∷ bytes ";qlen="
    ∷ qlen
    ∷ bytes ";root="
    ∷ join (bytes ",") profile.root_qdisc
    ∷ bytes ";ifb="
    ∷ join (bytes ",") profile.ifb_qdisc
    ∷ bytes ";off="
    ∷ join (bytes ",") (sort (map offload_pair profile.offloads))
    ∷ [])
