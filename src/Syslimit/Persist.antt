-- ===== src/Syslimit/Persist.antt =====
-- internal/syslimit/sysctlconf.go: writing a file, and reading the parameters again.
use tcsss.Prelude.{ℕ, Option, none, some, [], ◌∷◌, ◌++◌, M, ◌>>=◌, return, if◌then◌else◌}
use tcsss.Text.Ops.{Text, bytes, is_empty, trim_space}
use tcsss.Errors.{GoError, wrapped}
use tcsss.Traffic.Env.{Output}
use tcsss.System.{
  System, Log, open_truncated, change_mode, write_bytes, sync, command, request, attempt,
  unless_failed,
}

module _ (system : System) where
  -- `writeFileWithSync`
  unfoldable pub write_file_with_sync : Text → Text → ℕ → M Log (Option GoError)
  write_file_with_sync path payload perm =
      unless_failed
        (attempt (bytes "open " ++ path) (λ log. system.open_file log path perm)
          (open_truncated path perm))
        (unless_failed
          (attempt (bytes "chmod " ++ path) (λ log. system.set_mode log path perm)
            (change_mode path perm))
          (unless_failed
            (attempt (bytes "write " ++ path) (λ log. system.write_to log path payload)
              (write_bytes path payload))
            (attempt (bytes "sync " ++ path) (λ log. system.sync_to log path) (sync path))))

  abbrev pub reload_output : Output → Text × Option GoError
  reload_output printed = (
    trim_space printed.text,
    elim printed.failure [
      | none ↦ none
      | some e ↦
          (if is_empty (trim_space printed.text)
            then some (wrapped (bytes "sysctl --system failed") e)
            else some (wrapped (bytes "sysctl --system failed: " ++ trim_space printed.text) e))
    ],
  )

  -- `reloadSysctl`
  unfoldable pub reload_sysctl : M Log (Text × Option GoError)
  unfolding trim_space
  reload_sysctl =
      let args = bytes "--system" ∷ [] in
      request (λ log. system.run log (bytes "sysctl") args) (command (bytes "sysctl") args)
      >>= λ printed. return (reload_output printed)
