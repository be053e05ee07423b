-- ===== src/Traffic/Watcher/Loop/Ends.antt =====
-- What ends `watchLoop`, and what a tick leaves.
use tcsss.Prelude.{◌≡◌, ◌≢◌, refl, Bool, true, false, Option, List, ◌∷◌, inl, inr}
use tcsss.Errors.{GoError}
use tcsss.Traffic.Env.{Env, ok, Link, Shaper}
use tcsss.Traffic.Commands.{Message}
use tcsss.Traffic.Profiles.{ProfileSet}
use tcsss.Traffic.Shaper.Apply.{list_and_prepare_links, ApplyInterfaces}
use tcsss.Traffic.Shaper.Apply.Returns.{ApplyInterfaces-returns}
use tcsss.Traffic.Shaper.Process.{Only}
use tcsss.Traffic.Watcher.Pending.{PendingChanges, nothing, snapshot, clear}
use tcsss.Traffic.Watcher.Loop.{
  Watcher, Event, done, links_closed, addrs_closed, ApplyPending, idle, all_links, some_links,
}

-- The events that end the loop.
abbrev pub is_stop : Event → Bool
is_stop (done e) = true
is_stop links_closed = true
is_stop addrs_closed = true
is_stop _ = false

snapshot-clear : (p : PendingChanges) → snapshot (clear p) ≡ nothing
unfolding snapshot clear
snapshot-clear p = refl

module _ (env : Env) (message : Message) (profiles : ProfileSet) where
  -- A tick leaves no change pending and the loop where it stands, also if the pass returned an error.
  pub ApplyPending-clears :
      {w v : Watcher}
      → ApplyPending env message profiles w v
      → (snapshot v.pending ≡ nothing) × (v.status ≡ w.status)
  ApplyPending-clears (idle n e) = rw e (n, refl)
  ApplyPending-clears {w} (all_links x t n a e) = rw e (snapshot-clear w.pending, refl)
  ApplyPending-clears {w} (some_links names x t n a e) = rw e (snapshot-clear w.pending, refl)

  pass_hangs :
      {only : Only} {s : Shaper} {e : Option GoError} {t : Shaper} (l : Link) (ls : List Link)
      → (list_and_prepare_links env s).0 ≡ ok (l ∷ ls)
      → ApplyInterfaces env message profiles only s e t
      → ⊥
  pass_hangs l ls h a = elim (ApplyInterfaces-returns env message profiles a) [
    | inl (x, f, g) ↦ cc
    | inr (f, g) ↦ cc
  ]

  -- A tick with a change pending never ends once a link is listed: `watchLoop` then takes no further
  -- event, not even the end of its context.
  pub ApplyPending-hangs :
      (w v : Watcher) (l : Link) (ls : List Link)
      → snapshot w.pending ≢ nothing
      → (list_and_prepare_links env w.shaper).0 ≡ ok (l ∷ ls)
      → ¬ ApplyPending env message profiles w v
  ApplyPending-hangs w v l ls n h (idle m e) = n m
  ApplyPending-hangs w v l ls n h (all_links x t m a e) = pass_hangs l ls h a
  ApplyPending-hangs w v l ls n h (some_links names x t m a e) = pass_hangs l ls h a
