-- ===== src/Tests/Limits.antt =====
-- The limits and sysctl.conf of a small machine.
use mathlib.Core.Path.{subst}
use tcsss.Prelude.{
  ℕ, ◌≡◌, refl, none, some, List, [], ◌∷◌, All, if◌then◌else◌, arith, Bool-cases, inl, inr,
}
use tcsss.Text.Ops.{Text, bytes, text_eq, split, cut}
use tcsss.Text.Number.{print_nat, parse_uint}
use tcsss.Text.Maps.{lookup, text_eq_iff}
use tcsss.Errors.{plain}
use tcsss.Traffic.Env.{ok, err}
use tcsss.System.{System, Log}
use tcsss.Config.Selector.{TemplateSet, or_no_templates}
use tcsss.Syslimit.Units.{scaled, limit_agrees}
use tcsss.Syslimit.Limits.{generate_limits_conf, generate_systemd_conf, systemd_value}
use tcsss.Syslimit.Rlimit.{in_unit, apply_rlimit, parse_rlimit_value, parse_rlimit_config}
use tcsss.Syslimit.Rlimit.{LimitConfig, LimitsMap, set_limits}
use tcsss.Syslimit.Rlimit.Calls.{calls_of, set_limits-calls}
use tcsss.Syslimit.Rlimit.Parse.{IsLimit, parse_rlimit_config-IsLimit}
use tcsss.Syslimit.Sysctl.{Params, merge_text, parse_template}
use tcsss.Syslimit.Sysctl.Merge.Stable.{IsOrderOf}
use tcsss.Syslimit.Sysctl.Merge.Again.{merge_text_again}
use tcsss.Syslimit.Sysctl.Apply.{SysctlConfApplier}
use tcsss.Syslimit.Sysctl.Apply.{apply_sysctl}
use tcsss.Syslimit.Sysctl.Apply.Durable.{IsRole, parameters, Settled, apply_sysctl-Settled}
use tcsss.Syslimit.Limits.{systemd_order, load_rlimits_from_templates}
use tcsss.Syslimit.Limits.Systemd.{found_under, setting, generate_systemd_conf-found_under}
use tcsss.Tests.Machine.{content_at, thousandths, sort_slice, linux}

abbrev dir : Text
dir = bytes "/etc/tcsss"

systemd_text :
    generate_systemd_conf ((bytes "stack", bytes "8192") ∷ (bytes "core", bytes "unlimited") ∷ [])
    ≡ bytes
        "# Generated by tcsss - systemd default resource limits\n# Reload: systemctl daemon-reexec\n\n[Manager]\nDefaultLimitSTACK=8388608\nDefaultLimitCORE=infinity\n"
unfolding generate_systemd_conf
systemd_text = refl

pam_text :
    generate_limits_conf ((bytes "stack", bytes "8192") ∷ (bytes "core", bytes "unlimited") ∷ [])
    ≡ bytes
        "# Generated by tcsss - System resource limits\n# Applied via PAM for new login sessions\n# Note: stack/core unlimited values handled by /etc/profile\n\n*  soft  stack        8192\n*  hard  stack        8192\n"
unfolding generate_limits_conf
pam_text = refl

applied : (apply_rlimit thousandths sort_slice linux (λ m. m) dir []).0 ≡ ok 2
unfolding apply_rlimit
applied = refl

limit_agrees_example :
    (parse_rlimit_value (print_nat 8192) ≡ some 8192)
    × (in_unit (bytes "stack") 8192 ≡ scaled (bytes "stack") 8192)
    × (systemd_value (bytes "stack") (print_nat 8192) ≡ print_nat (scaled (bytes "stack") 8192))
limit_agrees_example = limit_agrees (bytes "stack") 8192 (omega arith)

parse_rlimit_config-IsLimit_example :
    All IsLimit (parse_rlimit_config (bytes "rlimit.nofile=65536\nrlimit.stack = 8192\n"))
parse_rlimit_config-IsLimit_example =
    parse_rlimit_config-IsLimit (bytes "rlimit.nofile=65536\nrlimit.stack = 8192\n")

abbrev templates : TemplateSet ℕ
templates = record (or_no_templates thousandths (err (plain []))) {
  common = bytes "rlimit.nofile = 1024\nrlimit.core=0\n";
  specific = bytes "rlimit.nofile=65536\nrlimit.stack = 8192\n";
}

abbrev role : List Text
role = bytes "vm.swappiness = 10\nnet.core.somaxconn=4096\n" ∷ []

abbrev before : Text
before = bytes "kernel.panic = 5\nvm.swappiness=60"

abbrev swap_two : Params → Params
swap_two (e ∷ f ∷ []) = f ∷ e ∷ []
swap_two ps = ps

abbrev swapped : Params
swapped = (bytes "net.core.somaxconn", bytes "4096") ∷ (bytes "vm.swappiness", bytes "10") ∷ []

role-IsOrderOf : IsOrderOf (parse_template role) (parse_template role)
unfolding parse_template lookup text_eq
role-IsOrderOf = ((λ k. refl), (refl, (refl, tt)))

abbrev in_order : Params
in_order = (bytes "vm.swappiness", bytes "10") ∷ (bytes "net.core.somaxconn", bytes "4096") ∷ []

parsed : parse_template role ≡ in_order
unfolding parse_template text_eq
parsed = refl

lookup-in_order : (k : Text) → lookup k swapped ≡ lookup k in_order
unfolding lookup text_eq
lookup-in_order k = elim (Bool-cases (text_eq (bytes "net.core.somaxconn") k)) [
  | inl x ↦
      subst (λ j. lookup j swapped ≡ lookup j in_order)
        ((text_eq_iff (bytes "net.core.somaxconn") k).0 x) refl
  | inr x ↦ rw x refl
]

lookup-swapped : (k : Text) → lookup k swapped ≡ lookup k (parse_template role)
lookup-swapped k = rw parsed (lookup-in_order k)

swapped-IsOrderOf : IsOrderOf (parse_template role) swapped
unfolding parse_template lookup text_eq
swapped-IsOrderOf = (lookup-swapped, (refl, (refl, tt)))

merge_text_again_example :
    merge_text (merge_text before (parse_template role)) swapped
    ≡ merge_text before (parse_template role)
merge_text_again_example =
    merge_text_again role before (parse_template role) swapped role-IsOrderOf swapped-IsOrderOf

abbrev applier : SysctlConfApplier
applier = record { path = bytes "/etc/sysctl.conf"; mode = bytes "client"; template_dir = dir }

-- A machine whose files hold what an earlier merge wrote.
abbrev settled : System
settled = record linux { contents = λ log path. ok (merge_text before swapped) }

abbrev nofile : LimitConfig
nofile = record {
  resource = bytes "nofile";
  name = bytes "RLIMIT_NOFILE";
  soft = 65536;
  hard = 65536;
}

abbrev two_limits : LimitsMap
two_limits =
    (bytes "nofile", nofile)
    ∷ (bytes "core", record nofile { resource = bytes "core"; soft = 1024; hard = 4096 })
    ∷ []

-- The limit of core files has its values, that of open files has not.
set_limits-calls_example :
    (set_limits linux two_limits 0 []).1
    ≡ calls_of (λ resource. record { cur = 1024; max = 4096 }) two_limits
unfolding text_eq
set_limits-calls_example =
    set_limits-calls linux (λ resource. record { cur = 1024; max = 4096 }) two_limits 0 []
      (λ l. refl) (λ l resource h. refl) ((refl, tt), (tt, tt)) (refl, (refl, tt))

in_table : lookup (bytes "nofile") systemd_order ≡ some (bytes "DefaultLimitNOFILE")
unfolding lookup text_eq
in_table = refl

-- What systemd reads for the number of open files is the limit of the tier's template.
generate_systemd_conf-found_under_example :
    found_under
      (bytes "DefaultLimitNOFILE")
      (split b'\n' (generate_systemd_conf (load_rlimits_from_templates templates [])))
    ≡ setting (bytes "nofile") (lookup (bytes "nofile") (load_rlimits_from_templates templates []))
generate_systemd_conf-found_under_example =
    generate_systemd_conf-found_under templates (bytes "nofile") (bytes "DefaultLimitNOFILE")
      in_table

nofile_read :
    found_under
      (bytes "DefaultLimitNOFILE")
      (split b'\n' (generate_systemd_conf (load_rlimits_from_templates templates [])))
    ≡ some (bytes "65536")
unfolding found_under split generate_systemd_conf load_rlimits_from_templates cut
nofile_read = refl

-- The small machine with a traffic template that can be read.
abbrev ready : System
ready = record linux {
  contents = λ log path.
      if text_eq path (bytes "/etc/tcsss/1-server.conf")
      then ok (bytes "net.core.somaxconn = 4096\n")
      else content_at path;
}

abbrev server : SysctlConfApplier
server = record { path = bytes "/etc/sysctl.conf"; mode = bytes "server"; template_dir = dir }

apply_succeeds : (apply_sysctl thousandths sort_slice ready (λ m. m) server []).0 ≡ none
unfolding apply_sysctl text_eq parse_uint
apply_succeeds = refl

apply_sysctl-Settled_example :
    (role : Text) × (before : Log) × IsRole thousandths sort_slice ready server [] role
    × Settled thousandths sort_slice ready
        (λ m. m)
        server
        (parameters thousandths sort_slice ready server [] role)
        before
        (apply_sysctl thousandths sort_slice ready (λ m. m) server []).1
apply_sysctl-Settled_example =
    apply_sysctl-Settled thousandths sort_slice ready (λ m. m) server [] apply_succeeds
