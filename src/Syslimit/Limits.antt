-- ===== src/Syslimit/Limits.antt =====
-- internal/syslimit/limits.go: the limits of new sessions, for PAM and for systemd. Resources are
-- given by the names they have in the templates.
pub mod Apply
pub mod Values
pub mod Systemd
use tcsss.Prelude.{
  ℕ, zero, suc, ◌+◌, ◌-◌, ◌*◌, ◌^◌, ◌%◌, Bool, true, false, ◌&&◌, ◌||◌, not, Option, none, some,
  List, [], ◌∷◌, ◌++◌, if◌then◌else◌, length, replicate, String,
}
use tcsss.Text.Ops.{
  Text, bytes, is_empty, has_prefix, trim_prefix, drop_prefix, text_eq, trim_space, split, cut,
  concat,
}
use tcsss.Text.Number.{parse_uint, print_nat}
use tcsss.Text.Maps.{lookup, insert}
use tcsss.Config.Selector.{TemplateSet}

-- The map `rlimits`.
abbrev pub Rlimits : Type 0
Rlimits = List (Text × Text)

pub record LimitsConfApplier : Type 0 where
  pub rlimits : Rlimits
  pub template_dir : Text

pub record FileConfig : Type 0 where
  pub path : Text
  pub content : Text
  pub perm : ℕ

-- The resource and the value of a line `rlimit.<resource>=<value>`.
unfoldable pub rlimit_entry : Text → Option (Text × Text)
unfolding trim_space has_prefix cut drop_prefix
rlimit_entry raw =
    let line = trim_space raw in
    if has_prefix (bytes "rlimit.") line
    then elim (cut b'=' line) [
      | none ↦ none
      | some (key, value) ↦ some (trim_space (trim_prefix (bytes "rlimit.") key), trim_space value)
    ]
    else none

abbrev pub add_rlimit : Option (Text × Text) → Rlimits → Rlimits
add_rlimit none rlimits = rlimits
add_rlimit (some (key, value)) rlimits = insert key value rlimits

unfoldable pub parse_rlimit_lines : List Text → Rlimits → Rlimits
unfolding rlimit_entry insert
parse_rlimit_lines [] rlimits = rlimits
parse_rlimit_lines (line ∷ lines) rlimits =
    parse_rlimit_lines lines (add_rlimit (rlimit_entry line) rlimits)

-- `parseRlimitsFromTemplate`
unfoldable pub parse_rlimits_from_template : Text → Rlimits → Rlimits
unfolding parse_rlimit_lines split
parse_rlimits_from_template content rlimits = parse_rlimit_lines (split b'\n' content) rlimits

-- `loadRlimitsFromTemplates`
unfoldable pub load_rlimits_from_templates : {W : Type 0} → TemplateSet W → Rlimits → Rlimits
unfolding parse_rlimits_from_template
load_rlimits_from_templates templates rlimits =
    parse_rlimits_from_template templates.specific
      (parse_rlimits_from_template templates.common rlimits)

-- `%-12s`
abbrev padded : Text → Text
padded s = s ++ replicate (12 - length s) b' '

abbrev pub limits_line : String → Text → Text → Text
limits_line kind res value =
    bytes "*  " ++ (bytes kind ++ (bytes "  " ++ (padded res ++ (b' ' ∷ (value ++ bytes "\n")))))

abbrev pub limits_order : List Text
limits_order =
    bytes "nofile"
    ∷ bytes "nproc"
    ∷ bytes "memlock"
    ∷ bytes "stack"
    ∷ bytes "core"
    ∷ bytes "cpu"
    ∷ bytes "as"
    ∷ bytes "data"
    ∷ bytes "fsize"
    ∷ bytes "msgqueue"
    ∷ bytes "sigpending"
    ∷ bytes "locks"
    ∷ []

abbrev is_unlimited : Text → Bool
is_unlimited value = text_eq value (bytes "unlimited")

-- The lines of one resource: stack and core without a limit are left out.
unfoldable pub limits_lines : Text → Option Text → Text
unfolding text_eq
limits_lines res none = []
limits_lines res (some value) =
    if (text_eq res (bytes "stack") || text_eq res (bytes "core")) && is_unlimited value
    then []
    else limits_line "soft" res value ++ limits_line "hard" res value

unfoldable pub limits_body : List Text → Rlimits → Text
unfolding limits_lines lookup
limits_body [] rlimits = []
limits_body (res ∷ order) rlimits =
    limits_lines res (lookup res rlimits) ++ limits_body order rlimits

-- `generateLimitsConf`
unfoldable pub generate_limits_conf : Rlimits → Text
unfolding limits_body
generate_limits_conf rlimits =
    if is_empty rlimits
    then []
    else concat (
        bytes "# Generated by tcsss - System resource limits\n"
        ∷ bytes "# Applied via PAM for new login sessions\n"
        ∷ bytes "# Note: stack/core unlimited values handled by /etc/profile\n\n"
        ∷ limits_body limits_order rlimits
        ∷ [])

-- The table `mapping`, in the order in which `order` lists its keys.
abbrev pub systemd_order : List (Text × Text)
systemd_order =
    (bytes "nofile", bytes "DefaultLimitNOFILE")
    ∷ (bytes "nproc", bytes "DefaultLimitNPROC")
    ∷ (bytes "memlock", bytes "DefaultLimitMEMLOCK")
    ∷ (bytes "stack", bytes "DefaultLimitSTACK")
    ∷ (bytes "core", bytes "DefaultLimitCORE")
    ∷ (bytes "cpu", bytes "DefaultLimitCPU")
    ∷ (bytes "as", bytes "DefaultLimitAS")
    ∷ (bytes "data", bytes "DefaultLimitDATA")
    ∷ (bytes "fsize", bytes "DefaultLimitFSIZE")
    ∷ []

-- Kilobytes as bytes; a value that is not a number is kept.
abbrev in_bytes : Text → Option ℕ → Text
in_bytes value none = value
in_bytes value (some v) = print_nat ((v * 1024) % 2 ^ 64)

-- The value that systemd gets for a resource.
unfoldable pub systemd_value : Text → Text → Text
unfolding text_eq parse_uint print_nat
systemd_value key value =
    let scaled =
      if text_eq key (bytes "stack") && not (is_unlimited value)
      then in_bytes value (parse_uint value)
      else value in
    if is_unlimited scaled then bytes "infinity" else scaled

abbrev pub systemd_line : Text → Text → Option Text → Text
unfolding systemd_value
systemd_line key name none = []
systemd_line key name (some value) = name ++ (b'=' ∷ (systemd_value key value ++ bytes "\n"))

unfoldable pub systemd_body : List (Text × Text) → Rlimits → Text
unfolding systemd_value lookup
systemd_body [] rlimits = []
systemd_body ((key, name) ∷ order) rlimits =
    systemd_line key name (lookup key rlimits) ++ systemd_body order rlimits

-- `generateSystemdConf`
unfoldable pub generate_systemd_conf : Rlimits → Text
unfolding systemd_body
generate_systemd_conf rlimits =
    if is_empty rlimits
    then []
    else concat (
        bytes "# Generated by tcsss - systemd default resource limits\n"
        ∷ bytes "# Reload: systemctl daemon-reexec\n\n"
        ∷ bytes "[Manager]\n"
        ∷ systemd_body systemd_order rlimits
        ∷ [])
