-- ===== src/Config/Window/Filled.antt =====
-- What a traffic template gives.
use mathlib.Core.Path.{subst}
use tcsss.Prelude.Int.{ℤ, pos, int_eq}
use tcsss.Prelude.{◌≡◌, refl, false, List, [], ◌∷◌, Bool-cases, Option-cases, inl, inr}
use tcsss.Text.Ops.{Text, bytes, text_eq, split}
use tcsss.Traffic.Env.{Result, ok, err}
use tcsss.Double.{Double}
use tcsss.Config.Mode.{TrafficMode, TrafficInitConfig}
use tcsss.Config.Window.{
  set_value, or_if_zero, fill_in, filled_in, no_windows, window_entry, window_line, window_lines,
  assigned, evaluate_expression, strip_inline_comment, parse_traffic_template,
}

-- A configuration of the mode, none of whose windows is zero.
abbrev pub IsFilled : TrafficMode → TrafficInitConfig → Type 0
IsFilled mode cfg =
    (cfg.mode ≡ mode)
    × (int_eq cfg.init_cwnd_bytes (pos 0) ≡ false)
    × (int_eq cfg.init_rwnd_bytes (pos 0) ≡ false)
    × (int_eq cfg.init_loopback_window_bytes (pos 0) ≡ false)

-- The configuration of a result, if it has one, satisfies P.
abbrev pub OnOk : (TrafficInitConfig → Type 0) → Result TrafficInitConfig → Type 0
OnOk P (ok cfg) = P cfg
OnOk P (err e) = Unit

OnOk-bind :
    (P : TrafficInitConfig → Type 0) (r : Result TrafficInitConfig)
    (f : TrafficInitConfig → Result TrafficInitConfig)
    → OnOk P r
    → ((c : TrafficInitConfig) → P c → OnOk P (f c))
    → OnOk P (elim r [ err e ↦ err e | ok next ↦ f next ])
OnOk-bind P (err e) f h g = tt
OnOk-bind P (ok c) f h g = g c h

set_value-mode :
    (key : Text) (v : ℤ) (cfg : TrafficInitConfig) → (set_value key v cfg).mode ≡ cfg.mode
unfolding set_value
set_value-mode key v cfg = elim (Bool-cases (text_eq key (bytes "initCwndBytes"))) [
  | inl x ↦ rw x refl
  | inr x ↦ elim (Bool-cases (text_eq key (bytes "initRwndBytes"))) [
    | inl y ↦ rw (x, y) refl
    | inr y ↦ elim (Bool-cases (text_eq key (bytes "initLoopbackWindowBytes"))) [
      | inl z ↦ rw (x, y, z) refl
      | inr z ↦ rw (x, y, z) refl
    ]
  ]
]

or_if_zero-nonzero : (v d : ℤ) → int_eq d (pos 0) ≡ false → int_eq (or_if_zero v d) (pos 0) ≡ false
or_if_zero-nonzero v d h = elim (Bool-cases (int_eq v (pos 0))) [
  | inl x ↦ rw x h
  | inr x ↦ rw (x, x) refl
]

fill_in-IsFilled : (cfg : TrafficInitConfig) → IsFilled cfg.mode (fill_in cfg)
fill_in-IsFilled cfg = (
  refl,
  or_if_zero-nonzero cfg.init_cwnd_bytes (pos 1495040) refl,
  or_if_zero-nonzero cfg.init_rwnd_bytes (pos 3145728) refl,
  or_if_zero-nonzero cfg.init_loopback_window_bytes (pos 10485760) refl,
)

module _ {W : Type 0} (d : Double W) where
  assigned-mode :
      (key : Text) (r : Result ℤ) (cfg : TrafficInitConfig)
      → OnOk (λ c. c.mode ≡ cfg.mode) (assigned d key r cfg)
  assigned-mode key (err e) cfg = tt
  assigned-mode key (ok v) cfg = set_value-mode key v cfg

  window_line-mode :
      (line : Text) (cfg : TrafficInitConfig)
      → OnOk (λ c. c.mode ≡ cfg.mode) (window_line d line cfg)
  unfolding window_line
  window_line-mode line cfg = elim (Option-cases (window_entry line)) [
    | inl n ↦ rw (OnOk, n) refl
    | inr (kv, e) ↦
        rw (OnOk, e) (assigned-mode kv.0 (evaluate_expression d (strip_inline_comment kv.1)) cfg)
  ]

  window_lines-mode :
      (lines : List Text) (cfg : TrafficInitConfig)
      → OnOk (λ c. c.mode ≡ cfg.mode) (window_lines d lines cfg)
  unfolding window_lines
  window_lines-mode [] cfg = refl
  window_lines-mode (line ∷ lines) cfg =
      OnOk-bind (λ c. c.mode ≡ cfg.mode) (window_line d line cfg) (window_lines d lines)
        (window_line-mode line cfg)
        (λ c h.
          subst (λ m. OnOk (λ x. x.mode ≡ m) (window_lines d lines c)) h
            (window_lines-mode lines c))

  filled_in-IsFilled :
      (mode : TrafficMode) (r : Result TrafficInitConfig)
      → OnOk (λ c. c.mode ≡ mode) r
      → OnOk (IsFilled mode) (filled_in d r)
  filled_in-IsFilled mode (err e) h = tt
  filled_in-IsFilled mode (ok cfg) h =
      subst (λ m. IsFilled m (fill_in cfg)) h (fill_in-IsFilled cfg)

  -- A template that can be parsed gives a configuration of its mode, none of whose windows is zero.
  pub parse_traffic_template-IsFilled :
      (mode : TrafficMode) (content : Text)
      → OnOk (IsFilled mode) (parse_traffic_template d mode content)
  unfolding parse_traffic_template
  parse_traffic_template-IsFilled mode content =
      filled_in-IsFilled mode (window_lines d (split b'\n' content) (no_windows mode))
        (window_lines-mode (split b'\n' content) (no_windows mode))
