-- ===== src/Syslimit/Rlimit.antt =====
-- internal/syslimit/rlimit.go: the limits of the process. A resource is given by its name in the
-- templates, which the table `resourceNameToRlimit` maps to distinct constants.
pub mod Parse
pub mod Merged
pub mod Calls
use tcsss.Prelude.{
  ℕ, zero, suc, ◌+◌, ◌-◌, ◌*◌, ◌^◌, ◌%◌, Bool, true, false, ◌&&◌, not, Option, none, some, List, [],
  ◌∷◌, ◌++◌, M, ◌>>=◌, return, if◌then◌else◌, ◌==◌,
}
use tcsss.Text.Ops.{Text, bytes, mem, text_eq, trim_space, to_upper, split}
use tcsss.Text.Number.{parse_uint}
use tcsss.Text.Maps.{insert}
use tcsss.Errors.{GoError, plain}
use tcsss.Traffic.Env.{Result, ok, err}
use tcsss.System.{System, Log, Rlimit, get_rlimit, set_rlimit, poll_context, request}
use tcsss.Double.{Double}
use tcsss.Config.Tiers.{SortSlice}
use tcsss.Config.Selector.{TemplateSet, detect_template_set, or_no_templates}
use tcsss.Syslimit.Limits.{rlimit_entry}

pub record LimitConfig : Type 0 where
  pub resource : Text
  pub name : Text
  pub soft : ℕ
  pub hard : ℕ

-- `RLIM_INFINITY`
abbrev pub unlimited : ℕ
unlimited = 2 ^ 64 - 1

-- The keys of `resourceNameToRlimit`.
abbrev pub resource_names : List Text
resource_names =
    bytes "nofile"
    ∷ bytes "nproc"
    ∷ bytes "core"
    ∷ bytes "stack"
    ∷ bytes "cpu"
    ∷ bytes "memlock"
    ∷ bytes "as"
    ∷ bytes "data"
    ∷ bytes "fsize"
    ∷ bytes "msgqueue"
    ∷ bytes "sigpending"
    ∷ bytes "locks"
    ∷ []

-- `parseRlimitValue`; `none` is its error.
unfoldable pub parse_rlimit_value : Text → Option ℕ
unfolding trim_space text_eq parse_uint
parse_rlimit_value value =
    if text_eq (trim_space value) (bytes "unlimited")
    then some unlimited
    else parse_uint (trim_space value)

-- The value in the unit of the resource: kilobytes of stack become bytes.
unfoldable pub in_unit : Text → ℕ → ℕ
unfolding text_eq
in_unit resource_name value =
    if text_eq resource_name (bytes "stack") && not (value == unlimited)
    then (value * 1024) % 2 ^ 64
    else value

abbrev both : Text → ℕ → LimitConfig
both resource_name value = record {
  resource = resource_name;
  name = bytes "RLIMIT_" ++ to_upper resource_name;
  soft = value;
  hard = value;
}

abbrev limit_of : Text → Option ℕ → Option LimitConfig
unfolding in_unit to_upper
limit_of resource_name none = none
limit_of resource_name (some value) = some (both resource_name (in_unit resource_name value))

abbrev known_limit : Option (Text × Text) → Option LimitConfig
unfolding mem parse_rlimit_value in_unit to_upper
known_limit none = none
known_limit (some (resource_name, value)) =
    if mem resource_name resource_names
    then limit_of resource_name (parse_rlimit_value value)
    else none

-- The limit that a line sets.
unfoldable pub limit_line : Text → Option LimitConfig
unfolding rlimit_entry mem parse_rlimit_value in_unit to_upper
limit_line line = known_limit (rlimit_entry line)

abbrev add_limit : Option LimitConfig → List LimitConfig → List LimitConfig
add_limit none limits = limits
add_limit (some limit) limits = limit ∷ limits

unfoldable pub limit_lines : List Text → List LimitConfig
unfolding limit_line
limit_lines [] = []
limit_lines (line ∷ lines) = add_limit (limit_line line) (limit_lines lines)

-- `parseRlimitConfig`
unfoldable pub parse_rlimit_config : Text → List LimitConfig
unfolding limit_lines split
parse_rlimit_config content = limit_lines (split b'\n' content)

-- The map `limitsMap`.
abbrev pub LimitsMap : Type 0
LimitsMap = List (Text × LimitConfig)

-- A loop that fills `limitsMap`.
unfoldable pub put_limits : List LimitConfig → LimitsMap → LimitsMap
unfolding insert
put_limits [] limits_map = limits_map
put_limits (limit ∷ limits) limits_map = put_limits limits (insert limit.resource limit limits_map)

-- What is left in `limitsMap`: the limits of the tier over the common ones.
unfoldable pub merged_limits : {W : Type 0} → TemplateSet W → LimitsMap
unfolding parse_rlimit_config put_limits
merged_limits templates =
    put_limits (parse_rlimit_config templates.specific)
      (put_limits (parse_rlimit_config templates.common) [])

abbrev is_set : Rlimit → LimitConfig → Bool
is_set current limit = (current.cur == limit.soft) && (current.max == limit.hard)

abbrev counted : ℕ → Option GoError → ℕ
counted applied none = suc applied
counted applied (some e) = applied

module _ (system : System) where
  abbrev change_limit : LimitConfig → Result Rlimit → M Log (Option GoError)
  change_limit limit (err e) = return (some e)
  change_limit limit (ok current) =
      if is_set current limit
      then return none
      else request
          (λ log.
            system.set_limit log limit.resource (record { cur = limit.soft; max = limit.hard }))
          (set_rlimit limit.resource limit.soft limit.hard)

  -- `setLimit`
  unfoldable pub set_limit : LimitConfig → M Log (Option GoError)
  set_limit limit =
      request (λ log. system.limit log limit.resource) (get_rlimit limit.resource)
      >>= change_limit limit

  -- The loop of `Apply` that sets the limits: how many it set, or the context's error.
  unfoldable pub set_limits : LimitsMap → ℕ → M Log (Result ℕ)
  unfolding set_limit
  set_limits [] applied = return (ok applied)
  set_limits ((resource, limit) ∷ limits) applied =
      request (λ log. system.context_error log) poll_context >>= λ done. elim done [
        | some e ↦ return (err e)
        | none ↦ set_limit limit >>= λ e. set_limits limits (counted applied e)
      ]

-- `visit` gives the entries of a map in the order in which a `range` visits them.
module _ {W : Type 0} (d : Double W) (sort_slice : SortSlice W) (system : System) where
  -- `RlimitApplier.Apply`: how many limits it counts as applied, or its error.
  unfoldable pub apply_rlimit : (LimitsMap → LimitsMap) → Text → M Log (Result ℕ)
  unfolding detect_template_set merged_limits set_limits
  apply_rlimit visit template_dir =
      detect_template_set d sort_slice system template_dir >>= λ templates.
      set_limits system (visit (merged_limits (or_no_templates d templates))) 0
