-- ===== src/Traffic/Watcher/Loop.antt =====
-- `watchLoop` as a step relation: each step takes one ready case of the `select`.
pub mod Ends
use tcsss.Prelude.Int.{ℤ}
use tcsss.Prelude.{◌≡◌, ◌≢◌, Option, none, some, List, [], ◌∷◌, ◌++◌}
use tcsss.Text.Ops.{Text, bytes}
use tcsss.Errors.{GoError, plain}
use tcsss.Traffic.Env.{Env, Link, History, Shaper, call}
use tcsss.Traffic.Commands.{Message}
use tcsss.Traffic.Profiles.{ProfileSet}
use tcsss.Traffic.Shaper.Apply.{ApplyInterfaces}
use tcsss.Traffic.Shaper.Cleanup.{cleanup_stale_signatures}
use tcsss.Traffic.Watcher.Pending.{
  PendingChanges, no_changes, add_link, add_addr, Todo, nothing, everything, only, snapshot, clear,
}

-- Where the loop stands: it selects, or it has returned an error.
pub data Status : Type 0 where
  selecting : Status
  stopped : GoError → Status

pub record Watcher : Type 0 where
  pub status : Status
  pub pending : PendingChanges
  pub shaper : Shaper

-- What a `select` receives.
pub data Event : Type 0 where
  done : GoError → Event
  link_update : Link → Event
  links_closed : Event
  addr_update : ℤ → Event
  addrs_closed : Event
  apply_tick : Event
  cleanup_tick : Event

abbrev pub initial_watcher : Shaper → Watcher
initial_watcher s = record { status = selecting; pending = no_changes; shaper = s }

-- `applyPending`: the changes are cleared first; the error of the pass is logged only.
module _ (env : Env) (message : Message) (profiles : ProfileSet) where
  pub data ApplyPending (w v : Watcher) : Type 0 where
    idle : snapshot w.pending ≡ nothing → v ≡ w → ApplyPending w v
    all_links :
        (e : Option GoError) (t : Shaper)
        → snapshot w.pending ≡ everything
        → ApplyInterfaces env message profiles none w.shaper e t
        → v ≡ record w { pending = clear w.pending; shaper = t }
        → ApplyPending w v
    some_links :
        (names : List Text) (e : Option GoError) (t : Shaper)
        → snapshot w.pending ≡ only names
        → ApplyInterfaces env message profiles (some names) w.shaper e t
        → v ≡ record w { pending = clear w.pending; shaper = t }
        → ApplyPending w v

  -- The events but for the tick of `applyPending` have one outcome.
  unfoldable pub handle : Event → Watcher → Watcher
  unfolding add_link add_addr cleanup_stale_signatures
  handle (done e) w = record w { status = stopped e }
  handle (link_update link) w = record w { pending = add_link link w.pending }
  handle links_closed w = record w { status = stopped (plain (bytes "link subscription closed")) }
  handle (addr_update index) w =
      let (pending, shaper) = call (add_addr env index w.pending) w.shaper in
      record w { pending = pending; shaper = shaper }
  handle addrs_closed w = record w { status = stopped (plain (bytes "addr subscription closed")) }
  handle cleanup_tick w = record w { shaper = (cleanup_stale_signatures env w.shaper).1 }
  handle apply_tick w = w

  pub data Select (w : Watcher) (event : Event) (v : Watcher) : Type 0 where
    handled : w.status ≡ selecting → event ≢ apply_tick → v ≡ handle event w → Select w event v
    ticked : w.status ≡ selecting → event ≡ apply_tick → ApplyPending w v → Select w event v

  -- The events that the loop has taken, in order.
  pub data Run (w : Watcher) : List Event → Watcher → Type 0 where
    begin : Run w [] w
    step :
        {events : List Event} {v u : Watcher} {event : Event}
        → Run w events v
        → Select v event u
        → Run w (events ++ (event ∷ [])) u
