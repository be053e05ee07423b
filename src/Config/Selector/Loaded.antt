-- ===== src/Config/Selector/Loaded.antt =====
-- What `LoadTrafficInitConfig` returns in every case.
use mathlib.Core.Path.{subst}
use tcsss.Prelude.{
  ◌≡◌, ◌⊎◌, refl, sym, Bool, true, false, List, [], ◌∷◌, return, Bool-cases, inl, inr,
  if◌then◌else◌, any,
}
use tcsss.Text.Ops.{Text, bytes, mem, trim_space, to_lower, is_empty}
use tcsss.Errors.{GoError}
use tcsss.Traffic.Env.{Result, ok, err}
use tcsss.Double.{Double}
use tcsss.System.{System, DirEntry, Log, ◌and_then◌}
use tcsss.Config.Mode.{
  TrafficMode, TrafficInitConfig, traffic_mode_client, traffic_mode_server, traffic_mode_aggregate,
  one_of, normalize_traffic_mode, detect_traffic_mode_from_files, traffic_template_content,
}
use tcsss.Config.Mode.Names.{mode_of_files, is_named, detect-mode_of_files}
use tcsss.Config.Window.{parse_traffic_template}
use tcsss.Config.Window.Filled.{IsFilled, OnOk, parse_traffic_template-IsFilled}
use tcsss.Config.Selector.{
  load_traffic_init_config, load_config, selected_mode, or_default_config, recognized,
}

abbrev pub known_modes : List TrafficMode
known_modes = traffic_mode_client ∷ traffic_mode_server ∷ traffic_mode_aggregate ∷ []

-- A configuration of one of the three modes, none of whose windows is zero.
abbrev pub IsUsable : TrafficInitConfig → Type 0
IsUsable cfg = IsFilled cfg.mode cfg × (mem cfg.mode known_modes ≡ true)

abbrev IsKnownMode : Result TrafficMode → Type 0
IsKnownMode (ok mode) = mem mode known_modes ≡ true
IsKnownMode (err e) = Unit

mode_of_files-IsKnownMode : (entries : List DirEntry) → IsKnownMode (mode_of_files entries)
unfolding mode_of_files mem
mode_of_files-IsKnownMode entries =
    elim (Bool-cases (any (is_named (bytes "1-client.conf")) entries)) [
      | inl c ↦ rw c refl
      | inr c ↦ elim (Bool-cases (any (is_named (bytes "1-server.conf")) entries)) [
        | inl s ↦ rw (c, s) refl
        | inr s ↦ elim (Bool-cases (any (is_named (bytes "1-aggregate.conf")) entries)) [
          | inl a ↦ rw (c, s, a) refl
          | inr a ↦ rw (c, s, a) tt
        ]
      ]
    ]

if-IsKnownMode :
    (b : Bool) (x y : TrafficMode × Bool)
    → IsKnownMode (recognized x)
    → IsKnownMode (recognized y)
    → IsKnownMode (recognized (if b then x else y))
if-IsKnownMode true x y h g = h
if-IsKnownMode false x y h g = g

normalize-IsKnownMode : (mode : Text) → IsKnownMode (recognized (normalize_traffic_mode mode))
unfolding normalize_traffic_mode mem
normalize-IsKnownMode mode =
    let key = to_lower (trim_space mode) in
    let c = one_of key (bytes "c" ∷ traffic_mode_client ∷ []) in
    let s = one_of key (bytes "s" ∷ traffic_mode_server ∷ []) in
    let a = one_of key (bytes "a" ∷ bytes "agg" ∷ traffic_mode_aggregate ∷ []) in
    let x : TrafficMode × Bool =
      if a then (traffic_mode_aggregate, true) else (traffic_mode_client, false) in
    let y : TrafficMode × Bool = if s then (traffic_mode_server, true) else x in
    if-IsKnownMode c (traffic_mode_client, true) y refl
      (if-IsKnownMode s (traffic_mode_server, true) x refl
        (if-IsKnownMode a (traffic_mode_aggregate, true) (traffic_mode_client, false) refl tt))

pub Result-cases :
    {A : Type 0} (r : Result A) → ((e : GoError) × (r ≡ err e)) ⊎ ((a : A) × (r ≡ ok a))
Result-cases (err e) = inl (e, refl)
Result-cases (ok a) = inr (a, refl)

module _ {W : Type 0} (d : Double W) (system : System) (dir : Text) where
  detect-IsKnownMode : (log : Log) → IsKnownMode (detect_traffic_mode_from_files system dir log).0
  unfolding detect_traffic_mode_from_files
  detect-IsKnownMode log = elim (Result-cases (system.entries log dir)) [
    | inl (e, x) ↦ rw x tt
    | inr (entries, x) ↦
        subst IsKnownMode (sym (detect-mode_of_files system dir log entries x))
          (mode_of_files-IsKnownMode entries)
  ]

  selected_mode-IsKnownMode :
      (mode : Text) (log : Log) → IsKnownMode (selected_mode d system dir mode log).0
  unfolding selected_mode
  selected_mode-IsKnownMode mode log = elim (Bool-cases (is_empty (trim_space mode))) [
    | inl x ↦ rw x (detect-IsKnownMode log)
    | inr x ↦ rw x (normalize-IsKnownMode (trim_space mode))
  ]

  loaded-IsUsable :
      (mode : TrafficMode) (r : Result TrafficInitConfig)
      → mem mode known_modes ≡ true
      → OnOk (IsFilled mode) r
      → IsUsable (or_default_config r).0
  unfolding mem
  loaded-IsUsable mode (err e) k h = ((refl, refl, refl, refl), refl)
  loaded-IsUsable mode (ok cfg) k (e, c, r, l) =
      ((refl, c, r, l), subst (λ m. mem m known_modes ≡ true) (sym e) k)

  -- What follows the choice of the mode.
  abbrev load_from : Result TrafficMode → Log → Result TrafficInitConfig × Log
  load_from (err e) log = (err e, log)
  load_from (ok selected) log =
      (traffic_template_content system dir selected and_then λ content.
      return (parse_traffic_template d selected content))
        log

  load_from-IsUsable :
      (r : Result TrafficMode) (log : Log)
      → IsKnownMode r
      → IsUsable (or_default_config (load_from r log).0).0
  unfolding mem traffic_template_content
  load_from-IsUsable (err e) log k = ((refl, refl, refl, refl), refl)
  load_from-IsUsable (ok mode) log k =
      elim (Result-cases (traffic_template_content system dir mode log).0) [
        | inl (e, x) ↦ rw x ((refl, refl, refl, refl), refl)
        | inr (text, x) ↦ rw x (
            loaded-IsUsable mode (parse_traffic_template d mode text) k
              (parse_traffic_template-IsFilled d mode text))
      ]

  load_config-load_from :
      (r : Result TrafficMode) (log : Log)
      → ((return r and_then λ selected.
            traffic_template_content system dir selected and_then λ content.
            return (parse_traffic_template d selected content))
          log)
        ≡ load_from r log
  load_config-load_from (err e) log = refl
  load_config-load_from (ok mode) log = refl

  -- Whatever is requested and whatever the files are, the configuration returned is of one of the three
  -- modes, and none of its windows is zero.
  pub load_traffic_init_config-IsUsable :
      (mode : Text) (log : Log) → IsUsable (load_traffic_init_config d system dir mode log).0.0
  unfolding load_traffic_init_config load_config mem
  load_traffic_init_config-IsUsable mode log =
      let (r, after) = selected_mode d system dir mode log in
      subst (λ q. IsUsable (or_default_config q.0).0) (sym (load_config-load_from r after))
        (load_from-IsUsable r after (selected_mode-IsKnownMode mode log))
