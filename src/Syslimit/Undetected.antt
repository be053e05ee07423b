-- ===== src/Syslimit/Undetected.antt =====
-- internal/syslimit/limits.go and rlimit.go where `DetectTemplateSet` fails.
use tcsss.Prelude.{◌≡◌, refl, none, []}
use tcsss.Text.Ops.{Text}
use tcsss.Errors.{GoError}
use tcsss.Traffic.Env.{ok, err}
use tcsss.System.{System, Log}
use tcsss.Double.{Double}
use tcsss.Config.Tiers.{SortSlice}
use tcsss.Config.Selector.{detect_template_set}
use tcsss.Syslimit.Limits.{load_rlimits_from_templates}
use tcsss.Syslimit.Limits.Apply.{new_limits_conf_applier, apply_limits, apply_rlimits}
use tcsss.Syslimit.Rlimit.{LimitsMap, merged_limits, set_limits, apply_rlimit}

-- Where no templates are found, both appliers return nil after the search for them: no limit is set and
-- no file is written.
pub undetected :
    {W : Type 0} (d : Double W) (sort_slice : SortSlice W) (system : System)
    (visit : LimitsMap → LimitsMap) (template_dir : Text) (log after : Log) (e : GoError)
    → detect_template_set d sort_slice system template_dir log ≡ (err e, after)
    → visit [] ≡ []
    → (apply_limits d sort_slice system (new_limits_conf_applier template_dir) log
        ≡ ((new_limits_conf_applier template_dir, none), after))
      × (apply_rlimit d sort_slice system visit template_dir log ≡ (ok 0, after))
unfolding new_limits_conf_applier apply_limits apply_rlimit load_rlimits_from_templates
    apply_rlimits merged_limits set_limits
undetected d sort_slice system visit template_dir log after e h v = (rw h refl, rw (h, v) refl)
