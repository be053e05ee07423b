-- ===== src/Traffic/Profiles/Defaults.antt =====
-- The defaults of the settings.
use tcsss.Prelude.Int.{ℤ, pos, negsuc, int_le, int_lt}
use tcsss.Prelude.{zero, suc, ◌≡◌, refl, true, arith, Bool-cases, inl, inr}
use tcsss.Route.Config.{or_default, window_with_defaults}
use tcsss.Traffic.Profiles.{Settings, with_defaults}

or_default_again : (v d : ℤ) → or_default (or_default v d) d ≡ or_default v d
or_default_again v d = elim (Bool-cases (int_le v (pos 0))) [
  | inl e ↦ elim (Bool-cases (int_le d (pos 0))) [ inl f ↦ rw (e, f) | inr f ↦ rw (e, f) ]
  | inr e ↦ rw (e, e)
]

-- Filling in the defaults a second time changes nothing.
with_defaults_again : (s : Settings) → with_defaults (with_defaults s) ≡ with_defaults s
unfolding with_defaults window_with_defaults
with_defaults_again s = simp or_default_again

or_default_pos : (v d : ℤ) → int_lt (pos 0) d ≡ true → int_lt (pos 0) (or_default v d) ≡ true
or_default_pos (pos zero) d h = h
or_default_pos (pos (suc n)) d h = ground arith
or_default_pos (negsuc n) d h = h

-- With the defaults filled in, both tickers get a period that is not zero or negative, for which
-- `time.NewTicker` would panic, and the queue lengths, the MTU and the segment size are positive.
with_defaults_pos :
    (s : Settings)
    → (int_lt (pos 0) (with_defaults s).watcher.reapply_interval ≡ true)
      × (int_lt (pos 0) (with_defaults s).watcher.cleanup_interval ≡ true)
      × (int_lt (pos 0) (with_defaults s).watcher.apply_timeout ≡ true)
      × (int_lt (pos 0) (with_defaults s).profiles.default_queue_len ≡ true)
      × (int_lt (pos 0) (with_defaults s).profiles.loopback_queue_len ≡ true)
      × (int_lt (pos 0) (with_defaults s).profiles.loopback_mtu_override ≡ true)
      × (int_lt (pos 0) (with_defaults s).routes.mss_bytes ≡ true)
unfolding with_defaults window_with_defaults
with_defaults_pos s = (
  or_default_pos s.watcher.reapply_interval (pos 2000000000) refl,
  or_default_pos s.watcher.cleanup_interval (pos 300000000000) refl,
  or_default_pos s.watcher.apply_timeout (pos 45000000000) refl,
  or_default_pos s.profiles.default_queue_len (pos 10001) refl,
  or_default_pos s.profiles.loopback_queue_len (pos 10000) refl,
  or_default_pos s.profiles.loopback_mtu_override (pos 65520) refl,
  or_default_pos s.routes.mss_bytes (pos 1460) refl,
)
