-- ===== src/Main.antt =====
-- cmd/tcsss/main.go: the template directory, the checks of the machine, and what the services are given.
pub mod Accepts
pub mod Prepared
pub mod Signals
pub mod Exit
use tcsss.Prelude.Int.{ℤ, pos}
use tcsss.Prelude.{
  Bool, true, false, ◌||◌, not, Option, none, some, List, [], ◌∷◌, ◌++◌, M, ◌>>=◌, return,
  if◌then◌else◌, is_some,
}
use tcsss.Text.Ops.{Text, bytes, is_empty, to_lower, trim_space, path_join, path_dir}
use tcsss.Text.Maps.{lookup}
use tcsss.Errors.{GoError, plain, wrapped}
use tcsss.Traffic.Env.{Result, ok, err}
use tcsss.Route.Config.{WindowConfig}
use tcsss.Traffic.Profiles.{Settings}
use tcsss.System.{
  System, DirEntry, Log, stat, read_dir, get_env, executable, request, unless_failed, checked,
  ◌and_then◌,
}
use tcsss.Double.{Double}
use tcsss.Config.Mode.{TrafficInitConfig, traffic_filename_to_mode}
use tcsss.Config.Tiers.{match_tier}
use tcsss.Config.Selector.{load_traffic_init_config}
use tcsss.Detector.Modules.{validate_kernel_modules}
use tcsss.Detector.Runtime.{validate_runtime}
use tcsss.Syslimit.Sysctl.Apply.{SysctlConfApplier, new_sysctl_conf_applier}
use tcsss.Syslimit.Limits.{LimitsConfApplier}
use tcsss.Syslimit.Limits.Apply.{new_limits_conf_applier}

-- Whether a file of the directory is a memory tier. `memoryPattern` is the pattern of the templates.
unfoldable pub is_memory_file : DirEntry → Bool
unfolding match_tier to_lower
is_memory_file entry = if entry.is_dir then false else is_some (match_tier (to_lower entry.name))

-- Whether it is a traffic template. `trafficFiles` has the keys of the templates' table.
unfoldable pub is_traffic_file : DirEntry → Bool
unfolding lookup to_lower
is_traffic_file entry =
    if entry.is_dir then false else is_some (lookup (to_lower entry.name) traffic_filename_to_mode)

-- `hasMemory` and `hasTraffic` after the loop over the entries.
unfoldable pub has_files : List DirEntry → Bool × Bool
unfolding is_memory_file is_traffic_file
has_files [] = (false, false)
has_files (entry ∷ entries) =
    (is_memory_file entry || (has_files entries).0, is_traffic_file entry || (has_files entries).1)

abbrev lacking : Text → Bool × Bool → Option GoError
lacking dir (has_memory, has_traffic) =
    if not has_memory
    then some (plain (bytes "no memory tier configuration found in " ++ dir))
    else if not has_traffic
    then some (plain (bytes "no traffic mode configuration found in " ++ dir))
    else none

abbrev dir_error : Text → Result Bool → Option GoError
dir_error dir (err e) = some e
dir_error dir (ok is_dir) =
    if is_dir then none else some (plain (dir ++ bytes " is not a directory"))

abbrev file_error : Text → Result Bool → Option GoError
file_error name (err e) = some (wrapped (bytes "missing required file " ++ name) e)
file_error name (ok is_dir) = none

abbrev entries_error : Text → Result (List DirEntry) → Option GoError
unfolding has_files
entries_error dir (err e) = some e
entries_error dir (ok entries) = lacking dir (has_files entries)

abbrev zero_settings : WindowConfig → Settings
zero_settings routes = record {
  routes = routes;
  watcher = record { reapply_interval = pos 0; cleanup_interval = pos 0; apply_timeout = pos 0 };
  profiles = record {
    default_queue_len = pos 0;
    loopback_queue_len = pos 0;
    loopback_mtu_override = pos 0;
    internal_rtt = pos 0;
    loopback_rtt = pos 0;
  };
}

-- The settings that the shaper is given.
abbrev pub traffic_settings : TrafficInitConfig → Settings
traffic_settings cfg = zero_settings (record {
  mss_bytes = pos 0;
  init_cwnd_bytes = cfg.init_cwnd_bytes;
  init_rwnd_bytes = cfg.init_rwnd_bytes;
  loopback_window_bytes = cfg.init_loopback_window_bytes;
})

-- The mode of the flag, or else of the first argument.
unfoldable pub chosen_mode : Text → Text → Text
unfolding trim_space
chosen_mode mode_flag legacy_arg =
    let mode = trim_space mode_flag in
    if is_empty mode then (if is_empty (trim_space legacy_arg) then mode else legacy_arg) else mode

-- What `main` hands to the daemon.
pub record Services : Type 0 where
  pub sysctl_applier : SysctlConfApplier
  pub limits_applier : LimitsConfApplier
  -- The field `templateDir` of the `RlimitApplier`.
  pub rlimit_dir : Text
  pub settings : Settings

abbrev services : Text → TrafficInitConfig → Services
unfolding new_sysctl_conf_applier new_limits_conf_applier
services template_dir cfg = record {
  sysctl_applier = new_sysctl_conf_applier template_dir cfg.mode;
  limits_applier = new_limits_conf_applier template_dir;
  rlimit_dir = template_dir;
  settings = traffic_settings cfg;
}

module _ (system : System) where
  -- `validateTemplateDir`
  unfoldable pub validate_template_dir : Text → M Log (Option GoError)
  unfolding has_files
  validate_template_dir dir =
      let common = path_join dir (bytes "common.conf") in
      unless_failed
        (request (λ log. system.status log dir) (stat dir) >>= λ s. return (dir_error dir s))
        (unless_failed
          (request (λ log. system.status log common) (stat common) >>= λ s.
            return (file_error (bytes "common.conf") s))
          (request (λ log. system.entries log dir) (read_dir dir) >>= λ entries.
            return (entries_error dir entries)))

  -- The directory where it is valid, and what follows where it is not.
  abbrev or_else : Text → M Log (Result Text) → M Log (Result Text)
  unfolding validate_template_dir
  or_else dir next =
      validate_template_dir dir >>= λ e. elim e [ none ↦ return (ok dir) | some x ↦ next ]

  abbrev no_dir : M Log (Result Text)
  no_dir = return (err (plain (bytes "no valid template directory found")))

  abbrev beside_executable : M Log (Result Text)
  unfolding validate_template_dir path_dir
  beside_executable = request (λ log. system.own_path log) executable >>= λ exec_path.
      elim exec_path [
        | err e ↦ no_dir
        | ok path ↦ or_else (path_join (path_dir path) (bytes "templates")) no_dir
      ]

  abbrev in_default_dir : M Log (Result Text)
  unfolding validate_template_dir path_dir
  in_default_dir = or_else (bytes "/etc/tcsss") beside_executable

  -- `resolveTemplateDir`
  unfoldable pub resolve_template_dir : Text → M Log (Result Text)
  unfolding validate_template_dir trim_space path_dir
  resolve_template_dir conf_flag =
      if is_empty conf_flag
      then (request (λ log. system.variable log (bytes "TCSSS_CONFIG_DIR"))
            (get_env (bytes "TCSSS_CONFIG_DIR"))
          >>= λ value.
              if is_empty (trim_space value)
              then in_default_dir
              else or_else (trim_space value) in_default_dir)
      else (validate_template_dir conf_flag >>= λ e. elim e [
        | none ↦ return (ok conf_flag)
        | some x ↦ return (err (wrapped (bytes "invalid template directory " ++ conf_flag) x))
      ])

-- `message` is the method `Error` of an error.
module _ {W : Type 0} (d : Double W) (message : GoError → Text) (system : System) where
  -- `main` up to the call of `Run`; an error ends the program with status 1.
  unfoldable pub main : Text → Text → Text → M Log (Result Services)
  unfolding resolve_template_dir chosen_mode validate_kernel_modules validate_runtime
      load_traffic_init_config new_sysctl_conf_applier new_limits_conf_applier
  main conf_flag mode_flag legacy_arg =
      resolve_template_dir system conf_flag and_then λ template_dir.
      checked (validate_kernel_modules message system) (
        checked (validate_runtime message system) (
          load_traffic_init_config d system template_dir (chosen_mode mode_flag legacy_arg)
          >>= λ loaded. return (ok (services template_dir loaded.0))))
