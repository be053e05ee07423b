-- ===== src/Config/Types.antt =====
-- internal/config/types.go: the configuration, its defaults and its validation.
pub mod Validate
use tcsss.Prelude.Int.{ℤ, pos, int_le}
use tcsss.Prelude.{String, Bool, true, false, ◌||◌, Option, none, some, if◌then◌else◌}
use tcsss.Text.Ops.{bytes}
use tcsss.Errors.{GoError, plain}
use tcsss.Route.Config.{or_default}

-- Durations are in nanoseconds.
pub record NetworkConfig : Type 0 where
  pub standard_mtu : ℤ
  pub standard_mss : ℤ
  pub loopback_mtu : ℤ
  pub loopback_mss : ℤ
  pub default_tx_queue_len : ℤ
  pub loopback_tx_queue_len : ℤ
  pub internal_rtt : ℤ
  pub loopback_rtt : ℤ

pub record RouteConfig : Type 0 where
  pub mss_bytes : ℤ
  pub init_cwnd_bytes : ℤ
  pub init_rwnd_bytes : ℤ
  pub loopback_window_bytes : ℤ

pub record WatcherConfig : Type 0 where
  pub reapply_interval : ℤ
  pub cleanup_interval : ℤ
  pub apply_timeout : ℤ

pub record Config : Type 0 where
  pub network : NetworkConfig
  pub routes : RouteConfig
  pub watcher : WatcherConfig

-- `Default`
unfoldable pub default_config : Config
default_config = record {
  network = record {
    standard_mtu = pos 1500;
    standard_mss = pos 1460;
    loopback_mtu = pos 65536;
    loopback_mss = pos 65520;
    default_tx_queue_len = pos 10001;
    loopback_tx_queue_len = pos 10000;
    internal_rtt = pos 100000;
    loopback_rtt = pos 20000;
  };
  routes = record {
    mss_bytes = pos 1460;
    init_cwnd_bytes = pos 146000;
    init_rwnd_bytes = pos 146000;
    loopback_window_bytes = pos 16777216;
  };
  watcher = record {
    reapply_interval = pos 2000000000;
    cleanup_interval = pos 300000000000;
    apply_timeout = pos 45000000000;
  };
}

-- `ApplyDefaults`, for a receiver that is not nil.
unfoldable pub apply_defaults : Config → Config
apply_defaults c = record {
  network = record {
    standard_mtu = or_default c.network.standard_mtu (pos 1500);
    standard_mss = or_default c.network.standard_mss (pos 1460);
    loopback_mtu = or_default c.network.loopback_mtu (pos 65536);
    loopback_mss = or_default c.network.loopback_mss (pos 65520);
    default_tx_queue_len = or_default c.network.default_tx_queue_len (pos 10001);
    loopback_tx_queue_len = or_default c.network.loopback_tx_queue_len (pos 10000);
    internal_rtt = or_default c.network.internal_rtt (pos 100000);
    loopback_rtt = or_default c.network.loopback_rtt (pos 20000);
  };
  routes = record {
    mss_bytes = or_default c.routes.mss_bytes (pos 1460);
    init_cwnd_bytes = or_default c.routes.init_cwnd_bytes (pos 146000);
    init_rwnd_bytes = or_default c.routes.init_rwnd_bytes (pos 146000);
    loopback_window_bytes = or_default c.routes.loopback_window_bytes (pos 16777216);
  };
  watcher = record {
    reapply_interval = or_default c.watcher.reapply_interval (pos 2000000000);
    cleanup_interval = or_default c.watcher.cleanup_interval (pos 300000000000);
    apply_timeout = or_default c.watcher.apply_timeout (pos 45000000000);
  };
}

abbrev not_positive : ℤ → Bool
not_positive v = int_le v (pos 0)

abbrev invalid : String → Option GoError
invalid text = some (plain (bytes text))

-- `Validate`
unfoldable pub validate : Config → Option GoError
validate c =
    if not_positive c.network.standard_mtu
    then invalid "network.standard_mtu must be positive"
    else if not_positive c.network.standard_mss
        || int_le c.network.standard_mtu c.network.standard_mss
    then invalid "network.standard_mss must be positive and less than MTU"
    else if not_positive c.network.loopback_mtu || not_positive c.network.loopback_mss
    then invalid "network.loopback mtu/mss must be positive"
    else if not_positive c.network.default_tx_queue_len
        || not_positive c.network.loopback_tx_queue_len
    then invalid "network.tx_queue_len values must be positive"
    else if not_positive c.routes.mss_bytes
    then invalid "traffic.routes.mss_bytes must be positive"
    else if not_positive c.routes.init_cwnd_bytes || not_positive c.routes.init_rwnd_bytes
    then invalid "traffic.routes init window sizes must be positive"
    else if not_positive c.watcher.reapply_interval
    then invalid "traffic.watcher.reapply_interval must be positive"
    else if not_positive c.watcher.cleanup_interval
    then invalid "traffic.watcher.cleanup_interval must be positive"
    else if not_positive c.watcher.apply_timeout
    then invalid "traffic.watcher.apply_timeout must be positive"
    else none
