-- ===== src/Route/Config.antt =====
-- internal/route/config.go: window sizes in bytes and in segments, and the parameters of a route.
use tcsss.Prelude.Int.{ℤ, pos, negsuc, int_le}
use tcsss.Prelude.{ℕ, zero, suc, ◌+◌, ◌-◌, ◌/◌, ◌^◌, List, [], ◌∷◌, if◌then◌else◌, ltb}
use tcsss.Text.Ops.{Text, bytes, is_empty}
use tcsss.Text.Number.{itoa}

pub record WindowConfig : Type 0 where
  pub mss_bytes : ℤ
  pub init_cwnd_bytes : ℤ
  pub init_rwnd_bytes : ℤ
  pub loopback_window_bytes : ℤ

abbrev pub default_mss : ℤ
default_mss = pos 1460

-- What stands for a value that is zero or negative.
abbrev pub or_default : ℤ → ℤ → ℤ
or_default value default = if int_le value (pos 0) then default else value

-- `WindowConfig.WithDefaults`
unfoldable pub window_with_defaults : WindowConfig → WindowConfig
window_with_defaults cfg = record cfg { mss_bytes = or_default cfg.mss_bytes default_mss }

-- The record `params`.
pub record Params : Type 0 where
  pub mtu : ℤ
  pub init_cwnd : ℤ
  pub init_rwnd : ℤ
  pub congctl : Text

-- `params.args`
unfoldable pub params_args : Params → List Text
unfolding itoa
params_args p =
    bytes "mtu"
    ∷ itoa p.mtu
    ∷ bytes "initcwnd"
    ∷ itoa p.init_cwnd
    ∷ bytes "initrwnd"
    ∷ itoa p.init_rwnd
    ∷ bytes "fastopen_no_cookie"
    ∷ bytes "1"
    ∷ (if is_empty p.congctl then [] else bytes "congctl" ∷ bytes "lock" ∷ p.congctl ∷ [])

abbrev negate : ℕ → ℤ
negate zero = pos 0
negate (suc n) = negsuc n

-- A sum of two 64-bit ints wraps, and Go's `/` rounds towards zero.
abbrev pub wrapped_quotient : ℕ → ℕ → ℤ
wrapped_quotient x m = if ltb x (2 ^ 63) then pos (x / m) else negate ((2 ^ 64 - x) / m)

-- `bytesToSegments`
unfoldable pub bytes_to_segments : ℤ → ℤ → ℤ
bytes_to_segments (pos (suc b)) (pos (suc m)) = wrapped_quotient (b + suc m) (suc m)
bytes_to_segments _ _ = pos 0
