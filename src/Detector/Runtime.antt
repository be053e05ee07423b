-- ===== src/Detector/Runtime.antt =====
-- internal/detector/runtime.go: the commands that the program runs, and the queueing discipline.
use tcsss.Prelude.{
  Bool, true, false, Option, none, some, List, [], ◌∷◌, ◌++◌, M, ◌>>=◌, return, if◌then◌else◌,
}
use tcsss.Text.Ops.{Text, bytes, join}
use tcsss.Errors.{GoError, plain, new, critical, no_context}
use tcsss.Traffic.Env.{ok, err}
use tcsss.System.{System, Log, command, look_path, request}
use tcsss.Detector.Modules.{module_status}

abbrev pub required_commands : List Text
required_commands = bytes "ip" ∷ bytes "tc" ∷ bytes "ethtool" ∷ []

abbrev pub cake_module_names : List Text
cake_module_names = bytes "sch_cake" ∷ bytes "cake" ∷ []

module _ (system : System) where
  -- The loop of `ensureCakeAvailable`: whether a module is loaded.
  unfoldable pub any_loaded : List Text → M Log Bool
  any_loaded [] = return false
  any_loaded (name ∷ names) = module_status system name >>= λ status. elim status [
    | ok is_dir ↦ return true
    | err e ↦ any_loaded names
  ]

  -- `modprobe -n`, which fails where there is no such module.
  abbrev can_load : Text → M Log (Option GoError)
  can_load name =
      let args = bytes "-n" ∷ name ∷ [] in
      request (λ log. system.run log (bytes "modprobe") args) (command (bytes "modprobe") args)
      >>= λ printed. return printed.failure

  abbrev no_cake : Option GoError
  no_cake = some (plain (bytes "cake qdisc kernel module (sch_cake) is not available"))

  -- `ensureCakeAvailable`
  unfoldable pub ensure_cake_available : M Log (Option GoError)
  unfolding any_loaded
  ensure_cake_available = any_loaded cake_module_names >>= λ loaded.
      if loaded
      then return none
      else (can_load (bytes "sch_cake") >>= λ first. elim first [
        | none ↦ return none
        | some e ↦ can_load (bytes "cake") >>= λ second. elim second [
          | none ↦ return none
          | some f ↦ return no_cake
        ]
      ])

-- `message` is the method `Error` of an error.
module _ (message : GoError → Text) (system : System) where
  abbrev command_issue : Text → Option GoError → List Text
  command_issue name none = []
  command_issue name (some e) =
      (bytes "missing command \"" ++ (name ++ (bytes "\": " ++ message e))) ∷ []

  -- The loop over the commands.
  unfoldable pub command_issues : List Text → List Text → M Log (List Text)
  command_issues [] issues = return issues
  command_issues (name ∷ names) issues =
      request (λ log. system.find_command log name) (look_path name) >>= λ e.
      command_issues names (issues ++ command_issue name e)

  abbrev cake_issue : Option GoError → List Text
  cake_issue none = []
  cake_issue (some e) = message e ∷ []

  abbrev prerequisites : List Text → Option GoError
  unfolding new join
  prerequisites [] = none
  prerequisites (issue ∷ issues) =
      new critical (some (plain (bytes "runtime prerequisites missing"))) (record no_context {
        operation = bytes "runtime_validation";
        actual = join (bytes "; ") (issue ∷ issues);
      })

  -- `ValidateRuntime`
  unfoldable pub validate_runtime : M Log (Option GoError)
  unfolding command_issues ensure_cake_available new join
  validate_runtime = command_issues required_commands [] >>= λ issues.
      ensure_cake_available system >>= λ e. return (prerequisites (issues ++ cake_issue e))
