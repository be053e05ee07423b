-- ===== src/Tests/Watch.antt =====
-- The watcher of the small machine.
use tcsss.Prelude.{◌≡◌, ◌||◌, none, [], ◌∷◌}
use tcsss.Text.Ops.{bytes}
use tcsss.Errors.{canceled}
use tcsss.Traffic.Env.{Link, initial}
use tcsss.Traffic.Watcher.Pending.{no_changes, snapshot}
use tcsss.Traffic.Watcher.Pending.Names.{
  add_links, any_nameless, named_in, covers, covers-add_links,
}
use tcsss.Traffic.Watcher.Loop.{Watcher, initial_watcher, done, link_update, handle}
use tcsss.Tests.World.{eth0_link, no_message, machine, profiles}

abbrev nameless : Link
nameless = record { attrs = none }

-- An update without a name makes a pass over all links due, so also over eth1.
covers-add_links_example :
    covers (bytes "eth1") (snapshot (add_links (eth0_link ∷ nameless ∷ []) no_changes)) ≡ (
      covers (bytes "eth1") (snapshot no_changes)
      || (any_nameless (eth0_link ∷ nameless ∷ [])
          || named_in (bytes "eth1") (eth0_link ∷ nameless ∷ [])))
covers-add_links_example = covers-add_links (bytes "eth1") (eth0_link ∷ nameless ∷ []) no_changes

abbrev at_start : Watcher
at_start = initial_watcher (initial [])

abbrev updated : Watcher
updated = handle machine no_message profiles (link_update eth0_link) at_start

abbrev ended : Watcher
ended = handle machine no_message profiles (done canceled) updated
