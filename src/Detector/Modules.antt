-- ===== src/Detector/Modules.antt =====
-- internal/detector/modules.go: the kernel modules that the program needs.
pub mod Required
use tcsss.Prelude.{
  Bool, true, false, Option, none, some, List, [], ◌∷◌, ◌++◌, M, ◌>>=◌, return, if◌then◌else◌,
}
use tcsss.Text.Ops.{Text, bytes, is_empty, join, trim_space}
use tcsss.Errors.{GoError, plain, wrapped}
use tcsss.Traffic.Env.{Result, ok, err, Output}
use tcsss.System.{System, Log, stat, command, request}

pub record ModuleInfo : Type 0 where
  pub name : Text
  pub required : Bool
  pub description : Text

-- `RequiredModules`
abbrev pub required_modules : List ModuleInfo
required_modules =
    record {
      name = bytes "nf_conntrack";
      required = false;
      description = bytes "Connection tracking for NAT optimization";
    }
    ∷ record {
      name = bytes "ifb";
      required = true;
      description = bytes "Intermediate Functional Block for ingress shaping";
    }
    ∷ record {
      name = bytes "sch_cake";
      required = true;
      description = bytes "CAKE qdisc for traffic shaping";
    }
    ∷ []

abbrev pub module_path : Text → Text
module_path name = bytes "/sys/module/" ++ name

abbrev missing_after : Text → Result Bool → Option GoError
missing_after name (ok is_dir) = none
missing_after name (err e) =
    some (plain (bytes "module " ++ (name ++ bytes " not found after modprobe")))

-- The text around the command's error is given with its output.
abbrev modprobe_error : Text → GoError → GoError
modprobe_error output e =
    wrapped (bytes "modprobe failed (output: " ++ (trim_space output ++ bytes ")")) e

-- The message of a required module that is missing.
abbrev issue_of : (GoError → Text) → ModuleInfo → Option GoError → List Text
issue_of message info none = []
issue_of message info (some e) =
    if info.required then (info.name ++ (bytes ": " ++ message e)) ∷ [] else []

abbrev missing_modules : List Text → Option GoError
missing_modules [] = none
missing_modules (issue ∷ issues) =
    some (plain (bytes "required kernel modules missing: " ++ join (bytes ", ") (issue ∷ issues)))

module _ (system : System) where
  -- `os.Stat` of the directory that a loaded module has.
  abbrev pub module_status : Text → M Log (Result Bool)
  module_status name =
      request (λ log. system.status log (module_path name)) (stat (module_path name))

  abbrev after_modprobe : Text → Text × Option GoError → M Log (Option GoError)
  unfolding trim_space
  after_modprobe name (output, some e) = return (some (modprobe_error output e))
  after_modprobe name (output, none) =
      module_status name >>= λ status. return (missing_after name status)

  abbrev load_module : Text → M Log (Option GoError)
  unfolding trim_space
  load_module name =
      request (λ log. system.run log (bytes "modprobe") (name ∷ []))
        (command (bytes "modprobe") (name ∷ []))
      >>= λ printed. after_modprobe name (printed.text, printed.failure)

  -- `ensureModule`
  unfoldable pub ensure_module : ModuleInfo → M Log (Option GoError)
  unfolding trim_space
  ensure_module info = module_status info.name >>= λ status. elim status [
    | ok is_dir ↦ return none
    | err e ↦ load_module info.name
  ]

-- `message` is the method `Error` of an error.
module _ (message : GoError → Text) (system : System) where
  -- The loop of `ValidateKernelModules`.
  unfoldable pub module_issues : List ModuleInfo → List Text → M Log (List Text)
  unfolding ensure_module
  module_issues [] errs = return errs
  module_issues (info ∷ modules) errs =
      ensure_module system info >>= λ e. module_issues modules (errs ++ issue_of message info e)

  -- `ValidateKernelModules`
  unfoldable pub validate_kernel_modules : M Log (Option GoError)
  unfolding module_issues join
  validate_kernel_modules =
      module_issues required_modules [] >>= λ errs. return (missing_modules errs)
