-- ===== src/Tests/World.antt =====
-- A small machine: one network interface, with a default route over it, and commands that succeed.
use tcsss.Prelude.Int.{pos}
use tcsss.Prelude.{true, false, none, some, [], ◌∷◌}
use tcsss.Text.Ops.{bytes}
use tcsss.Errors.{plain}
use tcsss.Traffic.Env.{Env, ok, err, LinkAttrs, Link}
use tcsss.Traffic.Commands.{Message}
use tcsss.Traffic.Profiles.{ProfileSet, Settings, with_defaults, new_profile_set}

abbrev pub eth0 : LinkAttrs
eth0 = record {
  name = bytes "eth0";
  index = pos 2;
  mtu = pos 1500;
  tx_qlen = pos 1000;
  flag_loopback = false;
  flag_up = true;
}

abbrev pub eth0_link : Link
eth0_link = record { attrs = some eth0 }

abbrev pub ifb_link : Link
ifb_link = record { attrs = some (record eth0 { name = bytes "ifb4old" }) }

abbrev pub no_message : Message
no_message e = bytes "failed"

abbrev pub machine : Env
machine = record {
  links = λ h. ok (eth0_link ∷ []);
  named = λ h name. ok (some eth0_link);
  indexed = λ h i. ok (some eth0_link);
  delete = λ h link. some (plain (bytes "busy"));
  set_mtu = λ h link v. none;
  set_tx_qlen = λ h link v. none;
  routes = λ h family. ok (record { dst = none; link_index = pos 2 } ∷ []);
  run = λ h name args. record { text = []; failure = none };
  resolve = λ h path. some (bytes "/sys/devices/pci0000:00/net/eth0");
  target = λ h path. some (bytes "../../drivers/e1000e");
  content = λ h path. some (bytes "0x8086\n");
  subscribe_links = λ h. none;
  subscribe_addrs = λ h. some (plain (bytes "no buffer space"));
  now = λ h. 5000000000;
}

-- The same machine, whose links cannot be listed.
abbrev pub broken : Env
broken = record machine { links = λ h. err (plain (bytes "no netlink")) }

abbrev pub no_settings : Settings
no_settings = record {
  routes = record {
    mss_bytes = pos 0;
    init_cwnd_bytes = pos 0;
    init_rwnd_bytes = pos 0;
    loopback_window_bytes = pos 0;
  };
  watcher = record { reapply_interval = pos 0; cleanup_interval = pos 0; apply_timeout = pos 0 };
  profiles = record {
    default_queue_len = pos 0;
    loopback_queue_len = pos 0;
    loopback_mtu_override = pos 0;
    internal_rtt = pos 0;
    loopback_rtt = pos 0;
  };
}

abbrev pub profiles : ProfileSet
profiles = new_profile_set (with_defaults no_settings).profiles
