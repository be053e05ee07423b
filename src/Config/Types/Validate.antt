-- ===== src/Config/Types/Validate.antt =====
-- When the configuration with its defaults is valid.
use tcsss.Prelude.Int.{ℤ, pos, negsuc, int_le, int_lt}
use tcsss.Prelude.{ℕ, zero, suc, ◌≡◌, ◌↔◌, refl, true, false, none, arith}
use tcsss.Route.Config.{or_default}
use tcsss.Config.Types.{Config, apply_defaults, validate}

or_default_positive :
    (v : ℤ) (n : ℕ) → int_lt (pos 0) (pos n) ≡ true → int_le (or_default v (pos n)) (pos 0) ≡ false
or_default_positive (pos zero) n h = ground arith
or_default_positive (pos (suc m)) n h = ground arith
or_default_positive (negsuc m) n h = ground arith

-- With the defaults filled in, a configuration is valid exactly if its segment size is below its MTU;
-- the segment size that is filled in need not be.
validate-apply_defaults :
    (c : Config)
    → (validate (apply_defaults c) ≡ none) ↔ (
        int_le (apply_defaults c).network.standard_mtu (apply_defaults c).network.standard_mss
        ≡ false)
unfolding validate apply_defaults
validate-apply_defaults c =
    rw
      (
        or_default_positive c.network.standard_mtu 1500 refl,
        or_default_positive c.network.standard_mss 1460 refl,
        or_default_positive c.network.loopback_mtu 65536 refl,
        or_default_positive c.network.loopback_mss 65520 refl,
        or_default_positive c.network.default_tx_queue_len 10001 refl,
        or_default_positive c.network.loopback_tx_queue_len 10000 refl,
        or_default_positive c.routes.mss_bytes 1460 refl,
        or_default_positive c.routes.init_cwnd_bytes 146000 refl,
        or_default_positive c.routes.init_rwnd_bytes 146000 refl,
        or_default_positive c.watcher.reapply_interval 2000000000 refl,
        or_default_positive c.watcher.cleanup_interval 300000000000 refl,
        or_default_positive c.watcher.apply_timeout 45000000000 refl,
      )
      (ground arith)
