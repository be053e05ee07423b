-- ===== src/Tests/Route.antt =====
-- The route optimizer on small inputs.
use tcsss.Prelude.Int.{pos}
use tcsss.Prelude.{◌≡◌, refl, ◌*◌, ◌+◌, ◌<◌, ◌≤◌, ℕ, List, [], ◌∷◌, ◌++◌, arith}
use tcsss.Text.Ops.{Text, bytes}
use tcsss.Route.Config.{bytes_to_segments, Params, params_args}
use tcsss.Route.Segments.{bytes_to_segments_ceil}
use tcsss.Route.Lines.{clean_tokens, is_window_key}
use tcsss.Route.Lines.Clean.{clean_tokens-params_args, clean_tokens-mtu_lock}

bytes_to_segments_ceil_example :
    (k : ℕ) × (bytes_to_segments (pos 10485760) (pos 1460) ≡ pos k)
    × (10485760 ≤ k * 1460)
    × (k * 1460 < 10485760 + 1460)
bytes_to_segments_ceil_example =
    bytes_to_segments_ceil 10485760 1460 (omega arith) (omega arith) (omega arith)

abbrev tokens : List Text
tokens = bytes "default" ∷ bytes "via" ∷ bytes "10.0.0.1" ∷ bytes "dev" ∷ bytes "eth0" ∷ []

abbrev window : Params
window = record { mtu = pos 1500; init_cwnd = pos 20; init_rwnd = pos 20; congctl = bytes "bbr" }

clean_tokens-params_args_example : clean_tokens (tokens ++ params_args window) ≡ tokens
unfolding is_window_key
clean_tokens-params_args_example =
    clean_tokens-params_args tokens window
      ((refl, refl), ((refl, refl), ((refl, refl), ((refl, refl), ((refl, refl), tt)))))

clean_tokens-mtu_lock_example :
    clean_tokens ((bytes "default" ∷ []) ++ (bytes "mtu" ∷ bytes "lock" ∷ bytes "1400" ∷ []))
    ≡ (bytes "default" ∷ []) ++ (bytes "1400" ∷ clean_tokens [])
unfolding is_window_key
clean_tokens-mtu_lock_example =
    clean_tokens-mtu_lock (bytes "default" ∷ []) (bytes "1400") [] ((refl, refl), tt) (refl, refl)

abbrev routes : List Text
routes = bytes "default via 10.0.0.1 dev eth0 mtu 1400" ∷ [] ∷ bytes "mtu 1500" ∷ []
