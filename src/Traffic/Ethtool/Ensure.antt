-- ===== src/Traffic/Ethtool/Ensure.antt =====
-- `ensureOffloads`: at most one `ethtool -K` call, or one for each setting if the features cannot
-- be read.
pub mod Batch
use tcsss.Prelude.{
  Bool, true, false, ◌||◌, Option, none, some, List, [], ◌∷◌, ◌++◌, map, M, ◌>>=◌, ◌>>◌, return,
  if◌then◌else◌,
}
use tcsss.Text.Ops.{Text, bytes, is_empty, mem, text_eq, to_lower}
use tcsss.Text.Maps.{lookup}
use tcsss.Traffic.Env.{Env, Output, exec, History, ask}
use tcsss.Traffic.Commands.{Message, run_optional}
use tcsss.Traffic.Profiles.{OffloadSetting, normalize_set_feature_name}
use tcsss.Traffic.Ethtool.Features.{Features, parse_features, map_desired_to_read_key}

abbrev pub suppress_offloads : List Text
suppress_offloads = map bytes (
    "Operation not supported" ∷ "bit name not found" ∷ "cannot modify an unsupported parameter"
    ∷ [])

-- `none` where the command fails or prints nothing.
abbrev pub features_of : Output → Option Features
features_of output = elim output.failure [
  | some e ↦ none
  | none ↦ (if is_empty output.text then none else some (parse_features output.text))
]

-- `readEthtoolFeatures`
unfoldable pub read_ethtool_features : Env → Text → M History (Option Features)
read_ethtool_features env iface =
    let args : List Text = bytes "-k" ∷ iface ∷ [] in
    ask (λ h. env.run h (bytes "ethtool") args) (exec (bytes "ethtool") args) >>= λ output.
    return (features_of output)

-- The feature already has the state; `strings.EqualFold` is equality of the lower-case texts.
abbrev has_state : Option Text → Text → Bool
has_state none state = false
has_state (some cur) state = text_eq (to_lower cur) (to_lower state)

-- A setting that the loop of `ensureOffloads` passes over.
unfoldable pub is_settled : Features → OffloadSetting → Bool
unfolding mem text_eq to_lower
is_settled f s =
    let read_key = map_desired_to_read_key s.feature in
    is_empty read_key
    || is_empty (normalize_set_feature_name s.feature)
    || mem read_key f.fixed
    || has_state (lookup read_key f.states) s.state

-- The arguments that the loop collects.
unfoldable pub batch : Features → List OffloadSetting → List Text
unfolding is_settled
batch f [] = []
batch f (s ∷ settings) =
    let rest = batch f settings in
    if is_settled f s then rest else normalize_set_feature_name s.feature ∷ s.state ∷ rest

module _ (env : Env) (message : Message) where
  -- One setting at a time; errors are logged only.
  apply_singly : Text → List OffloadSetting → M History (Unit {0})
  unfolding run_optional
  apply_singly iface [] = return tt
  apply_singly iface (s ∷ settings) =
      run_optional env message (bytes "ethtool")
        (bytes "-K" ∷ iface ∷ normalize_set_feature_name s.feature ∷ s.state ∷ []) suppress_offloads
      >> apply_singly iface settings

  apply_batch : Text → List Text → M History (Unit {0})
  unfolding run_optional
  apply_batch iface [] = return tt
  apply_batch iface (b ∷ batched) =
      run_optional env message (bytes "ethtool") (bytes "-K" ∷ iface ∷ b ∷ batched)
        suppress_offloads
      >> return tt

  apply_settings : Text → List OffloadSetting → Option Features → M History (Unit {0})
  unfolding apply_singly apply_batch batch
  apply_settings iface settings none = apply_singly iface settings
  apply_settings iface settings (some f) = apply_batch iface (batch f settings)

  -- `ensureOffloads`
  unfoldable pub ensure_offloads : Text → List OffloadSetting → M History (Unit {0})
  unfolding apply_settings read_ethtool_features
  ensure_offloads iface [] = return tt
  ensure_offloads iface (s ∷ settings) =
      read_ethtool_features env iface >>= apply_settings iface (s ∷ settings)
