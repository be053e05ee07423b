-- ===== src/Config/Window.antt =====
-- internal/config/selector.go: the window sizes that a traffic template sets, by expressions such as
-- `0.25 * 1024 * 1024`.
pub mod Filled
use tcsss.Prelude.Int.{ℤ, pos, int_eq}
use tcsss.Prelude.{Bool, true, false, ◌||◌, Option, none, some, List, [], ◌∷◌, ◌++◌, if◌then◌else◌}
use tcsss.Text.Ops.{Text, bytes, is_empty, has_prefix, text_eq, trim_space, split, cut}
use tcsss.Errors.{GoError, plain, wrapped}
use tcsss.Traffic.Env.{Result, ok, err}
use tcsss.Double.{Double}
use tcsss.Config.Mode.{TrafficMode, TrafficInitConfig, default_traffic_init_config}

-- `stripInlineComment`
unfoldable pub strip_inline_comment : Text → Text
unfolding trim_space cut
strip_inline_comment value =
    let v = trim_space value in trim_space (elim (cut b'#' v) [ none ↦ v | some (l, r) ↦ l ])

-- The three keys, and what is written through their pointers.
unfoldable pub set_value : Text → ℤ → TrafficInitConfig → TrafficInitConfig
unfolding text_eq
set_value key value cfg =
    if text_eq key (bytes "initCwndBytes")
    then record cfg { init_cwnd_bytes = value }
    else if text_eq key (bytes "initRwndBytes")
    then record cfg { init_rwnd_bytes = value }
    else if text_eq key (bytes "initLoopbackWindowBytes")
    then record cfg { init_loopback_window_bytes = value }
    else cfg

unfoldable pub is_window_name : Text → Bool
unfolding text_eq
is_window_name key =
    text_eq key (bytes "initCwndBytes")
    || text_eq key (bytes "initRwndBytes")
    || text_eq key (bytes "initLoopbackWindowBytes")

abbrev or_if_zero : ℤ → ℤ → ℤ
or_if_zero value default = if int_eq value (pos 0) then default else value

-- What is still zero gets its default.
abbrev pub fill_in : TrafficInitConfig → TrafficInitConfig
fill_in cfg = record {
  mode = cfg.mode;
  init_cwnd_bytes = or_if_zero cfg.init_cwnd_bytes default_traffic_init_config.init_cwnd_bytes;
  init_rwnd_bytes = or_if_zero cfg.init_rwnd_bytes default_traffic_init_config.init_rwnd_bytes;
  init_loopback_window_bytes =
      or_if_zero cfg.init_loopback_window_bytes
        default_traffic_init_config.init_loopback_window_bytes;
}

abbrev no_windows : TrafficMode → TrafficInitConfig
no_windows mode = record {
  mode = mode;
  init_cwnd_bytes = pos 0;
  init_rwnd_bytes = pos 0;
  init_loopback_window_bytes = pos 0;
}

-- The entry of a line: its key and the text behind the equals sign.
unfoldable pub window_entry : Text → Option (Text × Text)
unfolding trim_space has_prefix cut is_window_name
window_entry raw =
    let line = trim_space raw in
    if is_empty line || has_prefix (bytes "#") line then none else elim (cut b'=' line) [
      | none ↦ none
      | some (left, right) ↦
          (if is_window_name (trim_space left) then some (trim_space left, right) else none)
    ]

module _ {W : Type 0} (d : Double W) where
  -- The loop of `evaluateExpression`.
  unfoldable pub product : List Text → W → Result W
  unfolding trim_space
  product [] result = ok result
  product (factor ∷ factors) result = elim (is_empty (trim_space factor)) [
    | true ↦ err (plain (bytes "invalid factor"))
    | false ↦ elim (d.parse (trim_space factor)) [
      | none ↦ err (plain (bytes "invalid number"))
      | some value ↦ product factors (d.mul result value)
    ]
  ]

  abbrev rounded : Result W → Result ℤ
  rounded (err e) = err e
  rounded (ok result) =
      if d.lt result (d.of_nat 0)
      then err (plain (bytes "negative result"))
      else ok (d.to_int (d.round result))

  -- `evaluateExpression`
  unfoldable pub evaluate_expression : Text → Result ℤ
  unfolding product split trim_space
  evaluate_expression raw =
      if is_empty (trim_space raw)
      then err (plain (bytes "empty expression"))
      else rounded (product (split b'*' (trim_space raw)) (d.of_nat 1))

  abbrev assigned : Text → Result ℤ → TrafficInitConfig → Result TrafficInitConfig
  assigned key (err e) cfg = err (wrapped (bytes "parse " ++ key) e)
  assigned key (ok value) cfg = ok (set_value key value cfg)

  -- What a line does to the configuration.
  unfoldable pub window_line : Text → TrafficInitConfig → Result TrafficInitConfig
  unfolding window_entry evaluate_expression strip_inline_comment set_value
  window_line line cfg = elim (window_entry line) [
    | none ↦ ok cfg
    | some (key, text) ↦ assigned key (evaluate_expression (strip_inline_comment text)) cfg
  ]

  -- The loop of `parseTrafficTemplate`.
  unfoldable pub window_lines : List Text → TrafficInitConfig → Result TrafficInitConfig
  unfolding window_line
  window_lines [] cfg = ok cfg
  window_lines (line ∷ lines) cfg = elim (window_line line cfg) [
    | err e ↦ err e
    | ok next ↦ window_lines lines next
  ]

  abbrev filled_in : Result TrafficInitConfig → Result TrafficInitConfig
  filled_in (err e) = err e
  filled_in (ok cfg) = ok (fill_in cfg)

  -- `parseTrafficTemplate`
  unfoldable pub parse_traffic_template : TrafficMode → Text → Result TrafficInitConfig
  unfolding window_lines split
  parse_traffic_template mode content =
      filled_in (window_lines (split b'\n' content) (no_windows mode))
