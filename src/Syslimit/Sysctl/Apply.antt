-- ===== src/Syslimit/Sysctl/Apply.antt =====
-- internal/syslimit/sysctlconf.go: `SysctlConfApplier`.
pub mod UpToDate
pub mod Written
pub mod Durable
use tcsss.Prelude.{
  Bool, true, false, Option, none, some, List, [], ◌∷◌, ◌++◌, M, ◌>>=◌, return, if◌then◌else◌,
}
use tcsss.Text.Ops.{Text, bytes, is_empty, contains, text_eq}
use tcsss.Errors.{GoError, plain}
use tcsss.Traffic.Env.{Result, ok, err}
use tcsss.System.{
  System, Log, read_file, stat, write_file, poll_context, request, ◌and_then◌, in_context,
  error_in_context, attempt, unless_failed,
}
use tcsss.Double.{Double}
use tcsss.Config.Mode.{TrafficMode, traffic_mode_client, traffic_template_content}
use tcsss.Config.Tiers.{SortSlice}
use tcsss.Config.Selector.{TemplateSet, detect_template_set, or_no_templates}
use tcsss.Syslimit.Persist.{write_file_with_sync, reload_sysctl}
use tcsss.Syslimit.Sysctl.{Params, merge_text, parse_template}

pub record SysctlConfApplier : Type 0 where
  pub path : Text
  pub mode : TrafficMode
  pub template_dir : Text

-- `NewSysctlConfApplier`
unfoldable pub new_sysctl_conf_applier : Text → TrafficMode → SysctlConfApplier
new_sysctl_conf_applier template_dir mode = record {
  path = bytes "/etc/sysctl.conf";
  mode = if is_empty mode then traffic_mode_client else mode;
  template_dir = template_dir;
}

-- `SetSysctlPath`
unfoldable pub set_sysctl_path : Text → SysctlConfApplier → SysctlConfApplier
set_sysctl_path path sca = if is_empty path then sca else record sca { path = path }

abbrev not_empty : Params → Result Params
not_empty [] = err (plain (bytes "no parameters in templates"))
not_empty (e ∷ params) = ok (e ∷ params)

abbrev or_empty : Result Text → Text
or_empty (err e) = []
or_empty (ok text) = text

-- `handleReloadResult`
unfoldable pub handle_reload_result : Text × Option GoError → Option GoError
unfolding contains
handle_reload_result (output, none) = none
handle_reload_result (output, some e) =
    if contains (bytes "sysctl: cannot stat") output then none else some e

abbrev thp_path : Text
thp_path = bytes "/sys/kernel/mm/transparent_hugepage/enabled"

module _ (system : System) where
  abbrev missing : Result Bool → Bool
  missing (err e) = system.is_not_exist e
  missing (ok is_dir) = false

  -- `setTransparentHugepage`
  unfoldable pub set_transparent_hugepage : M Log (Option GoError)
  set_transparent_hugepage =
      unless_failed (request (λ log. system.context_error log) poll_context) (
        request (λ log. system.status log thp_path) (stat thp_path) >>= λ status.
        if missing status
        then return (some (plain (bytes "transparent hugepage not supported")))
        else attempt (bytes "write " ++ thp_path)
            (λ log. system.write_whole log thp_path (bytes "madvise\n") 420)
            (write_file thp_path (bytes "madvise\n") 420))

  -- `writeConfigAndReload`
  unfoldable pub write_config_and_reload : Text → Text → M Log (Option GoError)
  unfolding write_file_with_sync reload_sysctl handle_reload_result
  write_config_and_reload path merged =
      unless_failed
        (write_file_with_sync system path merged 384 >>= λ e.
          return (error_in_context (bytes "persist sysctl.conf") e))
        (reload_sysctl system >>= λ reloaded. return (handle_reload_result reloaded))

-- `visit` gives the entries of a map in the order in which a `range` visits them.
module _ {W : Type 0} (d : Double W) (sort_slice : SortSlice W) (system : System) where
  -- `buildTemplateParameters`
  unfoldable pub build_template_parameters :
      SysctlConfApplier → TemplateSet W → M Log (Result Params)
  unfolding traffic_template_content parse_template
  build_template_parameters sca templates =
      traffic_template_content system sca.template_dir sca.mode >>= λ role_template.
      return (elim (in_context (bytes "load traffic template") role_template) [
        | err e ↦ err e
        | ok role ↦ not_empty (parse_template (templates.common ∷ templates.specific ∷ role ∷ []))
      ])

  -- `loadExistingConfig`
  unfoldable pub load_existing_config : SysctlConfApplier → M Log Text
  load_existing_config sca =
      request (λ log. system.contents log sca.path) (read_file sca.path) >>= λ content.
      return (or_empty content)

  -- What follows when the file and the parameters are known.
  unfoldable pub bring_in : (Params → Params) → SysctlConfApplier → Params → M Log (Option GoError)
  unfolding load_existing_config merge_text text_eq write_config_and_reload set_transparent_hugepage
  bring_in visit sca params = load_existing_config sca >>= λ existing.
      let merged = merge_text existing (visit params) in
      if text_eq existing merged
      then return none
      else unless_failed (write_config_and_reload system sca.path merged)
          (set_transparent_hugepage system >>= λ _. return none)

  -- `SysctlConfApplier.Apply`
  unfoldable pub apply_sysctl : (Params → Params) → SysctlConfApplier → M Log (Option GoError)
  unfolding detect_template_set build_template_parameters bring_in
  apply_sysctl visit sca = unless_failed (request (λ log. system.context_error log) poll_context) (
      detect_template_set d sort_slice system sca.template_dir >>= λ templates.
      build_template_parameters sca (or_no_templates d templates) >>= λ built. elim built [
        | err e ↦ return (some e)
        | ok params ↦ bring_in visit sca params
      ])
