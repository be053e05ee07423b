-- ===== src/Config/Mode.antt =====
-- internal/config/selector.go: the traffic mode, and its window sizes.
pub mod Names
use tcsss.Prelude.Int.{ℤ, pos, negsuc, int_eq}
use tcsss.Prelude.{
  ℕ, Bool, true, false, ◌||◌, ◌*◌, String, Option, none, some, List, [], ◌∷◌, ◌++◌, M, ◌>>=◌,
  return, if◌then◌else◌, ltb,
}
use tcsss.Text.Ops.{
  Text, bytes, is_empty, has_prefix, text_eq, trim_space, to_lower, split, cut, path_join,
}
use tcsss.Text.Maps.{lookup}
use tcsss.Errors.{GoError, plain, wrapped}
use tcsss.Traffic.Env.{Result, ok, err}
use tcsss.System.{System, DirEntry, read_dir, read_file, Log, request}
use tcsss.Double.{Double}

-- `TrafficMode` is a string type.
abbrev pub TrafficMode : Type 0
TrafficMode = Text

abbrev pub traffic_mode_client : TrafficMode
traffic_mode_client = bytes "client"

abbrev pub traffic_mode_server : TrafficMode
traffic_mode_server = bytes "server"

abbrev pub traffic_mode_aggregate : TrafficMode
traffic_mode_aggregate = bytes "aggregate"

pub record TrafficInitConfig : Type 0 where
  pub mode : TrafficMode
  pub init_cwnd_bytes : ℤ
  pub init_rwnd_bytes : ℤ
  pub init_loopback_window_bytes : ℤ

abbrev pub traffic_mode_files : List (TrafficMode × Text)
traffic_mode_files =
    (traffic_mode_client, bytes "1-client.conf")
    ∷ (traffic_mode_server, bytes "1-server.conf")
    ∷ (traffic_mode_aggregate, bytes "1-aggregate.conf")
    ∷ []

abbrev pub traffic_filename_to_mode : List (Text × TrafficMode)
traffic_filename_to_mode =
    (bytes "1-client.conf", traffic_mode_client)
    ∷ (bytes "1-server.conf", traffic_mode_server)
    ∷ (bytes "1-aggregate.conf", traffic_mode_aggregate)
    ∷ []

abbrev pub traffic_mode_priority : List (TrafficMode × ℕ)
traffic_mode_priority =
    (traffic_mode_client, 1) ∷ (traffic_mode_server, 2) ∷ (traffic_mode_aggregate, 3) ∷ []

abbrev pub default_traffic_init_config : TrafficInitConfig
default_traffic_init_config = record {
  mode = traffic_mode_client;
  init_cwnd_bytes = pos 1495040;
  init_rwnd_bytes = pos 3145728;
  init_loopback_window_bytes = pos 10485760;
}

abbrev pub one_of : Text → List Text → Bool
one_of key [] = false
one_of key (n ∷ ns) = text_eq key n || one_of key ns

-- `normalizeTrafficMode`
unfoldable pub normalize_traffic_mode : Text → TrafficMode × Bool
unfolding to_lower trim_space
normalize_traffic_mode mode =
    let key = to_lower (trim_space mode) in
    if one_of key (bytes "c" ∷ traffic_mode_client ∷ [])
    then (traffic_mode_client, true)
    else if one_of key (bytes "s" ∷ traffic_mode_server ∷ [])
    then (traffic_mode_server, true)
    else if one_of key (bytes "a" ∷ bytes "agg" ∷ traffic_mode_aggregate ∷ [])
    then (traffic_mode_aggregate, true)
    else (traffic_mode_client, false)

-- The mode of a file name with its priority, if it has both.
abbrev pub ranked_mode : Option TrafficMode → Option (ℕ × TrafficMode)
ranked_mode none = none
ranked_mode (some mode) = elim (lookup mode traffic_mode_priority) [
  | none ↦ none
  | some priority ↦ some (priority, mode)
]

-- `none` is the priority `math.MaxInt` that the search begins with.
abbrev pub better : Option (ℕ × TrafficMode) → Option (ℕ × TrafficMode) → Option (ℕ × TrafficMode)
better best none = best
better none (some found) = some found
better (some best) (some found) = if ltb found.0 best.0 then some found else some best

unfoldable pub file_mode : DirEntry → Option (ℕ × TrafficMode)
unfolding lookup to_lower
file_mode entry =
    if entry.is_dir
    then none
    else ranked_mode (lookup (to_lower entry.name) traffic_filename_to_mode)

-- The loop of `detectTrafficModeFromFiles`.
unfoldable pub best_mode : List DirEntry → Option (ℕ × TrafficMode) → Option (ℕ × TrafficMode)
unfolding file_mode
best_mode [] best = best
best_mode (entry ∷ entries) best = best_mode entries (better best (file_mode entry))

abbrev detected : Option (ℕ × TrafficMode) → Result TrafficMode
detected none = err (plain (bytes "no traffic mode configuration found"))
detected (some (priority, mode)) = ok mode

abbrev mode_in : Result (List DirEntry) → Result TrafficMode
mode_in (err e) = err (wrapped (bytes "read template directory") e)
mode_in (ok entries) = detected (best_mode entries none)

abbrev template_text : Text → Result Text → Result Text
template_text filename (err e) = err (wrapped (bytes "read template file " ++ filename) e)
template_text filename (ok content) = ok content

module _ (system : System) where
  -- `detectTrafficModeFromFiles`
  unfoldable pub detect_traffic_mode_from_files : Text → M Log (Result TrafficMode)
  unfolding best_mode
  detect_traffic_mode_from_files template_dir =
      request (λ log. system.entries log template_dir) (read_dir template_dir) >>= λ entries.
      return (mode_in entries)

  -- `readTemplateFile`
  unfoldable pub read_template_file : Text → Text → M Log (Result Text)
  read_template_file template_dir filename =
      let path = path_join template_dir filename in
      request (λ log. system.contents log path) (read_file path) >>= λ content.
      return (template_text filename content)

  abbrev content_of : Text → TrafficMode → Option Text → M Log (Result Text)
  content_of template_dir mode (some filename) = read_template_file template_dir filename
  content_of template_dir mode none = elim (lookup traffic_mode_client traffic_mode_files) [
    | some filename ↦ read_template_file template_dir filename
    | none ↦ return (err (plain (bytes "traffic mode is not supported")))
  ]

  -- `TrafficTemplateContent`
  unfoldable pub traffic_template_content : Text → TrafficMode → M Log (Result Text)
  unfolding read_template_file lookup
  traffic_template_content template_dir mode =
      content_of template_dir mode (lookup mode traffic_mode_files)
