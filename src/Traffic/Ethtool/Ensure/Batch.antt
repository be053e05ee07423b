-- ===== src/Traffic/Ethtool/Ensure/Batch.antt =====
-- The one call of `ethtool -K`.
use tcsss.Prelude.{◌≡◌, refl, Bool, true, not, ◌&&◌, Option, none, some, List, [], ◌∷◌, ◌++◌, All}
use tcsss.Text.Ops.{Text, bytes, is_empty, mem, text_eq, to_lower}
use tcsss.Text.Maps.{lookup}
use tcsss.Traffic.Env.{Env, exec, History}
use tcsss.Traffic.Commands.{Message}
use tcsss.Traffic.Profiles.{OffloadSetting, normalize_set_feature_name}
use tcsss.Traffic.Ethtool.Features.{Features, map_desired_to_read_key}
use tcsss.Traffic.Ethtool.Ensure.{
  is_settled, batch, apply_batch, apply_settings, features_of, read_ethtool_features,
  ensure_offloads,
}

-- The arguments of a list of settings.
abbrev pub set_args : List OffloadSetting → List Text
set_args [] = []
set_args (s ∷ settings) = normalize_set_feature_name s.feature ∷ s.state ∷ set_args settings

-- The state read for a feature, if any, is another than the one asked for, in whatever case.
abbrev is_other : Option Text → Text → Bool
is_other none state = true
is_other (some cur) state = not (text_eq (to_lower cur) (to_lower state))

-- A setting that is to be sent: its feature has a name to read and a name to set, it is not fixed, and
-- it is not reported in the state asked for.
abbrev pub is_due : Features → OffloadSetting → Bool
is_due f s =
    not (is_empty (map_desired_to_read_key s.feature))
    && not (is_empty (normalize_set_feature_name s.feature))
    && not (mem (map_desired_to_read_key s.feature) f.fixed)
    && is_other (lookup (map_desired_to_read_key s.feature) f.states) s.state

abbrev pub IsSettled : Features → OffloadSetting → Type 0
IsSettled f s = is_settled f s ≡ true

batch_settled :
    (f : Features) (settings : List OffloadSetting)
    → All (IsSettled f) settings
    → batch f settings ≡ []
unfolding batch
batch_settled f [] h = refl
batch_settled f (s ∷ settings) (e, h) = rw (e, batch_settled f settings h)

-- Where the features can be read and all settings are in effect, `ensureOffloads` reads the
-- features and makes no other call.
ensure_offloads_settled :
    (env : Env) (message : Message) (iface : Text) (s : OffloadSetting)
    (settings : List OffloadSetting) (f : Features) (h : History)
    → features_of (env.run h (bytes "ethtool") (bytes "-k" ∷ iface ∷ [])) ≡ some f
    → All (IsSettled f) (s ∷ settings)
    → ensure_offloads env message iface (s ∷ settings) h
      ≡ (tt, h ++ (exec (bytes "ethtool") (bytes "-k" ∷ iface ∷ []) ∷ []))
unfolding ensure_offloads apply_settings read_ethtool_features apply_batch
ensure_offloads_settled env message iface s settings f h r a =
    rw (r, batch_settled f (s ∷ settings) a)
