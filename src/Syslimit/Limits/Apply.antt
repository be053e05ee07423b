-- ===== src/Syslimit/Limits/Apply.antt =====
-- internal/syslimit/limits.go: `LimitsConfApplier.Apply`.
use tcsss.Prelude.{ℕ, zero, suc, Option, none, some, List, [], ◌∷◌, M, ◌>>=◌, return, if◌then◌else◌}
use tcsss.Text.Ops.{Text, bytes, is_empty, path_dir}
use tcsss.Errors.{GoError}
use tcsss.Traffic.Env.{Result, ok, err}
use tcsss.System.{System, Log, mkdir_all, command, poll_context, request, error_in_context}
use tcsss.Double.{Double}
use tcsss.Config.Tiers.{SortSlice}
use tcsss.Config.Selector.{detect_template_set, or_no_templates}
use tcsss.Syslimit.Persist.{write_file_with_sync}
use tcsss.Syslimit.Limits.{
  Rlimits, LimitsConfApplier, FileConfig, load_rlimits_from_templates, generate_limits_conf,
  generate_systemd_conf,
}

-- `NewLimitsConfApplier`
unfoldable pub new_limits_conf_applier : Text → LimitsConfApplier
new_limits_conf_applier template_dir = record { rlimits = []; template_dir = template_dir }

-- The files that `Apply` writes.
unfoldable pub limits_files : Rlimits → List FileConfig
unfolding generate_limits_conf generate_systemd_conf
limits_files rlimits =
    record {
      path = bytes "/etc/security/limits.conf";
      content = generate_limits_conf rlimits;
      perm = 420;
    }
    ∷ record {
      path = bytes "/etc/systemd/system.conf";
      content = generate_systemd_conf rlimits;
      perm = 420;
    }
    ∷ []

-- One more file is written where there was no error.
abbrev counted : ℕ → Option GoError → ℕ
counted written none = suc written
counted written (some e) = written

module _ (system : System) where
  -- A file of the loop, for a context that is not done: how many files are written then.
  unfoldable pub write_config : FileConfig → ℕ → M Log ℕ
  unfolding write_file_with_sync path_dir
  write_config cfg written =
      if is_empty cfg.content
      then return written
      else request (λ log. system.make_dir log (path_dir cfg.path) 493)
          (mkdir_all (path_dir cfg.path) 493)
        >>= λ made. elim made [
          | some e ↦ return written
          | none ↦ write_file_with_sync system cfg.path cfg.content cfg.perm >>= λ e.
              return (counted written e)
        ]

  -- The loop over the files: how many are written, or the context's error.
  unfoldable pub write_configs : List FileConfig → ℕ → M Log (Result ℕ)
  unfolding write_config
  write_configs [] written = return (ok written)
  write_configs (cfg ∷ configs) written =
      request (λ log. system.context_error log) poll_context >>= λ done. elim done [
        | some e ↦ return (err e)
        | none ↦ write_config cfg written >>= λ next. write_configs configs next
      ]

  -- `reloadSystemd`
  unfoldable pub reload_systemd : M Log (Option GoError)
  reload_systemd =
      let args = bytes "daemon-reexec" ∷ [] in
      request (λ log. system.run log (bytes "systemctl") args) (command (bytes "systemctl") args)
      >>= λ printed.
          return (error_in_context (bytes "systemctl daemon-reexec failed") printed.failure)

  abbrev reload_after : Result ℕ → M Log (Option GoError)
  unfolding reload_systemd
  reload_after (err e) = return (some e)
  reload_after (ok zero) = return none
  reload_after (ok (suc n)) = reload_systemd >>= λ _. return none

  unfoldable pub apply_rlimits : Rlimits → M Log (Option GoError)
  unfolding limits_files write_configs reload_systemd
  apply_rlimits [] = return none
  apply_rlimits (r ∷ rlimits) = write_configs (limits_files (r ∷ rlimits)) 0 >>= reload_after

module _ {W : Type 0} (d : Double W) (sort_slice : SortSlice W) (system : System) where
  -- `LimitsConfApplier.Apply`
  unfoldable pub apply_limits : LimitsConfApplier → M Log (LimitsConfApplier × Option GoError)
  unfolding detect_template_set load_rlimits_from_templates apply_rlimits
  apply_limits lca = detect_template_set d sort_slice system lca.template_dir >>= λ templates.
      let rlimits = load_rlimits_from_templates (or_no_templates d templates) lca.rlimits in
      apply_rlimits system rlimits >>= λ e. return (record lca { rlimits = rlimits }, e)
