-- ===== src/Traffic/Commands/Calls.antt =====
-- The calls that the functions of tc_executor.go make.
use tcsss.Prelude.{◌≡◌, refl, List, [], ◌∷◌, ◌++◌}
use tcsss.Text.Ops.{Text}
use tcsss.Traffic.Env.{Env, exec, History}
use tcsss.Traffic.Commands.{Message, run}

module _ (env : Env) (message : Message) where
  -- `run` makes the call, and no other.
  pub run-calls :
      (name : Text) (args : List Text) (h : History)
      → (run env message name args h).1 ≡ h ++ (exec name args ∷ [])
  unfolding run
  run-calls name args h = refl
