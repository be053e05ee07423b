-- ===== src/Syslimit/Sysctl/Apply/Written.antt =====
-- sysctl.conf is written and the parameters are reloaded.
use mathlib.Core.Path.{subst}
use mathlib.Core.List.{append_assoc}
use tcsss.Prelude.{
  true, ◌≡◌, refl, ap, ◌∙◌, inl, inr, Option, none, some, [], ◌∷◌, ◌++◌, M, ◌>>=◌, return, arith,
  Bool-cases, Option-cases,
}
use tcsss.Text.Ops.{Text, bytes, is_empty, contains, trim_space}
use tcsss.Errors.{GoError}
use tcsss.Traffic.Env.{Output}
use tcsss.System.{
  System, Log, poll_context, stat, write_file, open_truncated, change_mode, write_bytes, sync,
  command, unless_failed, error_in_context,
}
use tcsss.Syslimit.Persist.{write_file_with_sync, reload_output, reload_sysctl}
use tcsss.Syslimit.Sysctl.Apply.{
  handle_reload_result, write_config_and_reload, missing, thp_path, set_transparent_hugepage,
}

-- A step that follows where the first one did not fail.
after_none :
    {S : Type 0} (next : M S (Option GoError)) (r : Option GoError × S)
    → (unless_failed (λ s. r) next r.1).0 ≡ none
    → (r.0 ≡ none) × ((next r.1).0 ≡ none) × (unless_failed (λ s. r) next r.1 ≡ next r.1)
after_none next (none, t) h = (refl, h, refl)
after_none next (some e, t) h = cc

pub unless_failed-none :
    {S : Type 0} (m next : M S (Option GoError)) (s : S)
    → (unless_failed m next s).0 ≡ none
    → ((m s).0 ≡ none) × ((next (m s).1).0 ≡ none) × (unless_failed m next s ≡ next (m s).1)
unless_failed-none m next s h = after_none next (m s) h

error_in_context-none :
    (text : Text) (e : Option GoError) → error_in_context text e ≡ none → e ≡ none
error_in_context-none text none h = refl
error_in_context-none text (some e) h = cc

module _ (path text : Text) where
  -- The log before each of the calls that follow the first one, and behind the last.
  abbrev pub before_chmod : Log → Log
  before_chmod log = log ++ (open_truncated path 384 ∷ [])

  abbrev pub before_write : Log → Log
  before_write log = before_chmod log ++ (change_mode path 384 ∷ [])

  abbrev pub before_sync : Log → Log
  before_sync log = before_write log ++ (write_bytes path text ∷ [])

  abbrev pub before_reload : Log → Log
  before_reload log = before_sync log ++ (sync path ∷ [])

  abbrev pub after_reload : Log → Log
  after_reload log = before_reload log ++ (command (bytes "sysctl") (bytes "--system" ∷ []) ∷ [])

-- What `sysctl --system` has come to: it succeeded, or it failed and printed that some parameter does not
-- exist on this kernel.
pub data IsReloaded (printed : Output) : Type 0 where
  succeeded : printed.failure ≡ none → IsReloaded printed
  lacks_parameter :
      (e : GoError)
      → printed.failure ≡ some e
      → contains (bytes "sysctl: cannot stat") (trim_space printed.text) ≡ true
      → IsReloaded printed

reload-IsReloaded :
    (system : System) (printed : Output)
    → handle_reload_result (reload_output system printed) ≡ none
    → IsReloaded printed
unfolding handle_reload_result
reload-IsReloaded system printed h = elim (Option-cases printed.failure) [
  | inl f ↦ succeeded f
  | inr (e, f) ↦
      elim (Bool-cases (contains (bytes "sysctl: cannot stat") (trim_space printed.text))) [
        | inl c ↦ lacks_parameter e f c
        | inr c ↦ elim (Bool-cases (is_empty (trim_space printed.text))) [
          | inl b ↦ cc (rw (f, b, c) at h)
          | inr b ↦ cc (rw (f, b, c) at h)
        ]
      ]
]

module _ (system : System) (path text : Text) where
  -- The calls after `log` open and truncate the file, set its mode, write the text, sync it and run
  -- `sysctl --system`; those on the file succeeded, and the command did, or only lacked parameters.
  pub record IsWritten (log after : Log) : Type 0 where
    pub opened : system.open_file log path 384 ≡ none
    pub protected : system.set_mode (before_chmod path text log) path 384 ≡ none
    pub written : system.write_to (before_write path text log) path text ≡ none
    pub synced : system.sync_to (before_sync path text log) path ≡ none
    pub reloaded :
        IsReloaded
          (system.run (before_reload path text log) (bytes "sysctl") (bytes "--system" ∷ []))
    pub calls : after ≡ after_reload path text log

  write_file-none :
      (log : Log)
      → (write_file_with_sync system path text 384 log).0 ≡ none
      → (system.open_file log path 384 ≡ none)
        × (system.set_mode (before_chmod path text log) path 384 ≡ none)
        × (system.write_to (before_write path text log) path text ≡ none)
        × (system.sync_to (before_sync path text log) path ≡ none)
        × ((write_file_with_sync system path text 384 log).1 ≡ before_reload path text log)
  unfolding write_file_with_sync
  write_file-none log h = ground arith

  pub write_config-IsWritten :
      (log : Log)
      → (write_config_and_reload system path text log).0 ≡ none
      → IsWritten log (write_config_and_reload system path text log).1
  unfolding write_config_and_reload reload_sysctl
  write_config-IsWritten log h =
      let persist : M Log (Option GoError) = write_file_with_sync system path text 384 >>= λ e.
      return (error_in_context (bytes "persist sysctl.conf") e) in
      let reload : M Log (Option GoError) =
        reload_sysctl system >>= λ reloaded. return (handle_reload_result reloaded) in
      let (w, r, e) = unless_failed-none persist reload log h in
      let (o, c, t, y, l) =
        write_file-none log (error_in_context-none (bytes "persist sysctl.conf") _ w) in
      record {
        opened = o;
        protected = c;
        written = t;
        synced = y;
        reloaded =
            reload-IsReloaded system
              (system.run (before_reload path text log) (bytes "sysctl") (bytes "--system" ∷ []))
              (subst (λ m. (reload m).0 ≡ none) l r);
        calls = ap (λ (p : Option GoError × Log). p.1) e ∙ ap (λ m. (reload m).1) l;
      }

-- Huge pages are set by calls that come behind the others.
pub hugepage_calls :
    (system : System) (log : Log)
    → (behind : Log) × ((set_transparent_hugepage system log).1 ≡ log ++ behind)
unfolding set_transparent_hugepage
hugepage_calls system log = elim (Option-cases (system.context_error log)) [
  | inr (e, x) ↦ (poll_context ∷ [], rw x refl)
  | inl x ↦
      elim (Bool-cases (missing system (system.status (log ++ (poll_context ∷ [])) thp_path))) [
        | inl y ↦ (poll_context ∷ stat thp_path ∷ [], rw (x, y) (append_assoc log _ _))
        | inr y ↦ (
          poll_context ∷ stat thp_path ∷ write_file thp_path (bytes "madvise\n") 420 ∷ [],
          rw (x, y) (simp append_assoc),
        )
      ]
]
