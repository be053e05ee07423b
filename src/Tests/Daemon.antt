-- ===== src/Tests/Daemon.antt =====
-- The daemon and the end of the program.
use tcsss.Prelude.{false, if◌then◌else◌, ℕ, ◌≡◌, ◌≢◌, refl, Bool, true, none, some, [], ◌∷◌}
use tcsss.Text.Ops.{bytes}
use tcsss.Errors.{GoError, canceled}
use tcsss.Daemon.{
  rlimit, traffic, returns, panics, never, Dependencies, running, ended, not_started, daemon_panic,
  startup, RunReturns, startup_stops, selects, context_done,
}
use tcsss.Daemon.Hangs.{IsShaper, IsListed, Blamed, Run-hangs}
use tcsss.Route.Optimizer.{Optimizer, new_optimizer}
use tcsss.Traffic.Env.{initial}
use tcsss.Traffic.Shaper.Apply.{list_and_prepare_links}
use tcsss.Main.{main, Services}
use tcsss.Main.Signals.{sigterm, receive_signals}
use tcsss.Main.Exit.{Exits, ran, Exits-one}
use tcsss.Tests.World.{eth0_link, no_message, machine, profiles, no_settings}
use tcsss.Tests.Machine.{thousandths, linux}

abbrev optimizer : Optimizer
optimizer = new_optimizer no_settings.routes

-- A daemon whose rlimit service panics; its traffic service would never return.
abbrev panicking : Dependencies
panicking = record {
  present = λ s. true;
  apply =
      λ called s. elim s [ traffic ↦ never | rlimit ↦ panics (bytes "nil map") | _ ↦ returns none ];
}

is_shaper : IsShaper panicking machine no_message profiles optimizer (initial [])
is_shaper called e h = cc

link-IsListed : IsListed panicking machine no_message profiles optimizer (initial []) eth0_link []
unfolding list_and_prepare_links
link-IsListed = refl

panics_at_rlimit :
    RunReturns panicking true (some canceled) not_started (some (daemon_panic (bytes "nil map")))
unfolding startup
panics_at_rlimit = startup_stops (daemon_panic (bytes "nil map")) refl refl refl

Run-hangs_example :
    ((watches : Bool) → (startup panicking).1 ≢ running watches)
    × ((x : GoError) × (some (daemon_panic (bytes "nil map")) ≡ some x) × Blamed panicking x)
Run-hangs_example =
    Run-hangs panicking machine no_message profiles optimizer (initial []) eth0_link [] refl
      is_shaper link-IsListed panics_at_rlimit

-- All services succeed, and the watch goes on until the context is canceled.
abbrev calm : Services → Dependencies
calm services = record { present = λ s. true; apply = λ called s. returns none }

-- The program is asked to end by SIGTERM.
terminated :
    Exits thousandths (λ e. []) linux calm none [] (bytes "agg") [] [] (sigterm ∷ []) false 1
unfolding main startup receive_signals
terminated =
    ran _ (ended (some canceled)) (some canceled) refl (λ s. refl) refl
      (selects true refl refl (λ e. cc) (context_done (λ e. cc) (λ e. cc) refl)) refl refl refl

Exits-one_example : ◌≡◌ {A = ℕ} 1 (if false then 2 else 1)
Exits-one_example = Exits-one thousandths (λ e. []) linux calm refl terminated
