-- ===== src/Traffic/Commands.antt =====
-- tc_config.go and tc_executor.go: the arguments of `tc`, and how commands are run.
pub mod Calls
use tcsss.Prelude.{
  Bool, true, false, ◌&&◌, ◌||◌, Option, none, some, List, [], ◌∷◌, ◌++◌, map, M, ◌>>=◌, ◌>>◌,
  return, if◌then◌else◌, not,
}
use tcsss.Text.Ops.{Text, bytes, is_empty, join, trim_space, to_lower, contains}
use tcsss.Errors.{GoError, holds, is_canceled, wrapped}
use tcsss.Traffic.Env.{Env, Output, exec, History, ask}

abbrev pub ifb_prefix : Text
ifb_prefix = bytes "ifb4"

abbrev pub ingress_handle : Text
ingress_handle = bytes "ffff:"

pub record QdiscConfig : Type 0 where
  pub device : Text
  pub root : Bool
  pub parent : Text
  pub handle : Text
  pub kind : Text
  pub options : List Text

-- A flag with its value, or nothing for an empty value.
abbrev flag : Text → Text → List Text
flag name value = if is_empty value then [] else name ∷ value ∷ []

-- `QdiscConfig.ReplaceArgs`
unfoldable pub replace_args : QdiscConfig → List Text
replace_args qc =
    (bytes "qdisc" ∷ bytes "replace" ∷ bytes "dev" ∷ qc.device ∷ [])
    ++ ((if qc.root then bytes "root" ∷ [] else flag (bytes "parent") qc.parent)
        ++ (flag (bytes "handle") qc.handle
            ++ ((if is_empty qc.kind then [] else qc.kind ∷ []) ++ qc.options)))

pub record FilterConfig : Type 0 where
  pub device : Text
  pub parent : Text
  pub protocol : Text
  pub pref : Text
  pub kind : Text
  pub actions : List Text

-- What `DeleteArgs` and `AddArgs` have in common.
abbrev filter_args : Text → FilterConfig → List Text
filter_args verb fc =
    bytes "filter"
    ∷ verb
    ∷ bytes "dev"
    ∷ fc.device
    ∷ bytes "parent"
    ∷ fc.parent
    ∷ bytes "protocol"
    ∷ fc.protocol
    ∷ bytes "pref"
    ∷ fc.pref
    ∷ []

-- `FilterConfig.DeleteArgs`
unfoldable pub delete_args : FilterConfig → List Text
delete_args fc = filter_args (bytes "del") fc

-- `FilterConfig.AddArgs`
unfoldable pub add_args : FilterConfig → List Text
add_args fc = filter_args (bytes "add") fc ++ (fc.kind ∷ fc.actions)

-- `splitQdiscSpec`
abbrev pub split_qdisc_spec : List Text → Text × List Text
split_qdisc_spec [] = ([], [])
split_qdisc_spec (kind ∷ options) = (kind, options)

-- `rootQdiscConfig`, and `ifbRootQdiscConfig` with the ifb device.
unfoldable pub root_qdisc_config : Text → List Text → QdiscConfig
root_qdisc_config device spec =
    let (kind, options) = split_qdisc_spec spec in
    record {
      device = device;
      root = true;
      parent = [];
      handle = [];
      kind = kind;
      options = options;
    }

-- `ingressQdiscConfig`
unfoldable pub ingress_qdisc_config : Text → QdiscConfig
ingress_qdisc_config device = record {
  device = device;
  root = false;
  parent = [];
  handle = ingress_handle;
  kind = bytes "ingress";
  options = [];
}

-- The loop of `containsAny`.
any_contained : Text → List Text → Bool
unfolding to_lower contains
any_contained lower [] = false
any_contained lower (sub ∷ subs) =
    (not (is_empty sub) && contains (to_lower sub) lower) || any_contained lower subs

-- `containsAny`
unfoldable pub contains_any : Text → List Text → Bool
unfolding any_contained
contains_any message substrings =
    not (is_empty message) && any_contained (to_lower message) substrings

-- `err.Error()`, which Go's error types define; only `containsAny` reads it.
abbrev pub Message : Type 0
Message = GoError → Text

abbrev command_prefix : Text → List Text → Text
command_prefix name args = bytes "command " ++ (name ++ (bytes " " ++ join (bytes " ") args))

abbrev command_error : Message → Text → List Text → List Text → Text → GoError → Option GoError
command_error message name args suppress output e =
    if holds is_canceled e
    then some e
    else if contains_any (trim_space output) suppress || contains_any (message e) suppress
    then none
    else some (wrapped (command_prefix name args) e)

-- The result of `execCommand` for what the executor returned.
unfoldable pub command_result : Message → Text → List Text → List Text → Output → Option GoError
unfolding holds contains_any trim_space join
command_result message name args suppress output = elim output.failure [
  | none ↦ none
  | some e ↦ command_error message name args suppress output.text e
]

module _ (env : Env) (message : Message) where
  -- `execCommand`; what it logs, and so `quiet`, is left out.
  unfoldable pub exec_command : Text → List Text → List Text → M History (Option GoError)
  unfolding command_result
  exec_command name args suppress = ask (λ h. env.run h name args) (exec name args) >>= λ output.
      return (command_result message name args suppress output)

  -- `run`, and `runQuiet`, which differs in what it logs.
  unfoldable pub run : Text → List Text → M History (Option GoError)
  unfolding exec_command
  run name args = exec_command name args []

  -- `runOptional`
  unfoldable pub run_optional : Text → List Text → List Text → M History (Option GoError)
  unfolding exec_command
  run_optional name args suppressed = exec_command name args suppressed

  -- `replaceFilter`: the error of the deletion is ignored.
  unfoldable pub replace_filter : FilterConfig → M History (Option GoError)
  unfolding run
  replace_filter cfg = run (bytes "tc") (delete_args cfg) >> run (bytes "tc") (add_args cfg)
