-- ===== src/Tests/Pass.antt =====
-- Passes over the small machine: a profile, the worker pool, and the daemon.
use tcsss.Prelude.Int.{pos}
use tcsss.Prelude.{
  ◌≡◌, ◌≢◌, ◌⊎◌, ◌↔◌, ◌≤◌, refl, Bool, true, false, Option, none, some, List, [], ◌∷◌, M, arith,
}
use tcsss.Text.Ops.{bytes}
use tcsss.Text.Number.{atoi}
use tcsss.Errors.{GoError, plain, nil}
use tcsss.Daemon.{returns, Dependencies, startup}
use tcsss.Daemon.Order.{Outcome, order, startup-Outcome}
use tcsss.Traffic.Env.{Env, ok, err, Link, Shaper, initial}
use tcsss.Traffic.Profiles.{ShapingProfile}
use tcsss.Traffic.Shaper.Configure.{
  accept, parse_profile_parameters, desired_signature, configure_profile,
}
use tcsss.Traffic.Shaper.Configure.Params.{InRange, parse_profile_parameters-accept}
use tcsss.Traffic.Shaper.Configure.Categorised.{IsCategorised}
use tcsss.Traffic.Shaper.Configure.Faults.{configure_profile-IsCategorised}
use tcsss.Traffic.Shaper.Configure.Signatures.{Kept, configure_profile-signatures}
use tcsss.Traffic.Shaper.Cleanup.{cleanup_stale_signatures}
use tcsss.Traffic.Shaper.Cleanup.Stale.{signature_after, cleanup_stale_signatures-lookup}
use tcsss.Text.Maps.{lookup}
use tcsss.Traffic.Shaper.Process.{worker_count}
use tcsss.Traffic.Shaper.Pool.{
  Pool, start, Reach, here, next, send, close_work, take_link, process_link, finish, wait,
  receive_error, none_left, one_more, no_stats, WorkerStats,
}
use tcsss.Traffic.Shaper.Pool.Hang.{IsBlocked, Next, has_returned, apply_to_links_hangs}
use tcsss.Traffic.Shaper.Apply.{list_and_prepare_links, ApplyInterfaces, list_fails}
use tcsss.Traffic.Shaper.Apply.Returns.{ApplyInterfaces-returns, ApplyInterfaces-terminates}
use tcsss.Tests.World.{eth0, eth0_link, no_message, machine, broken, profiles}

-- The sysctl service fails, so nothing else is called.
abbrev deps : Dependencies
deps = record {
  present = λ s. true;
  apply = λ called s. returns (some (plain (bytes "read only")));
}

startup-Outcome_example : Outcome deps [] order (startup deps)
startup-Outcome_example = startup-Outcome deps

parse_profile_parameters-accept_example :
    (parse_profile_parameters (bytes "eth0") (bytes "1500") (bytes "10001") (bytes "loopback")
      ≡ accept (pos 1500, pos 10001))
    ↔ ((atoi (bytes "1500") ≡ some (pos 1500))
        × InRange 68 65535 (pos 1500)
        × (atoi (bytes "10001") ≡ some (pos 10001))
        × InRange 1 1000000 (pos 10001))
parse_profile_parameters-accept_example =
    parse_profile_parameters-accept (bytes "eth0") (bytes "1500") (bytes "10001") (bytes "loopback")
      (pos 1500) (pos 10001)

configure_profile-signatures_example :
    Kept machine no_message eth0 profiles.external_physical
      (bytes "external-physical")
      (initial [])
      (configure_profile machine no_message
        (some eth0)
        profiles.external_physical
        (bytes "external-physical")
        (initial []))
configure_profile-signatures_example =
    configure_profile-signatures machine no_message eth0 profiles.external_physical
      (bytes "external-physical") (initial [])

-- A queue that is too long.
abbrev too_long : ShapingProfile
too_long = record profiles.external_physical { queue_length = bytes "1000001" }

configure_profile-IsCategorised_example :
    IsCategorised
      (bytes "eth0")
      (bytes "external-physical")
      (configure_profile machine no_message
        (some eth0)
        too_long
        (bytes "external-physical")
        (initial [])).0
configure_profile-IsCategorised_example =
    configure_profile-IsCategorised machine no_message eth0 too_long (bytes "external-physical")
      (initial [])

-- A shaper that has configured the interface.
abbrev configured : Shaper
configured = record (initial []) {
  applied_signatures = (bytes "eth0", desired_signature eth0 profiles.external_physical) ∷ [];
}

cleanup_stale_signatures-lookup_example :
    lookup (bytes "eth1") (cleanup_stale_signatures machine configured).1.applied_signatures
    ≡ signature_after (ok (eth0_link ∷ [])) (bytes "eth1") configured.applied_signatures
cleanup_stale_signatures-lookup_example =
    cleanup_stale_signatures-lookup machine (bytes "eth1") configured

-- A `processLink` that fails.
abbrev failing : Env → Link → M Shaper (Bool × Option GoError)
failing env link s = ((true, some (plain (bytes "no tc"))), s)

abbrev one_done : WorkerStats
one_done = record { processed = 1; failed = 1 }

-- The single worker fails on the single link and ends; its error is received.
blocked : (p : Pool) × Reach failing (start (eth0_link ∷ []) (initial [])) 7 p
unfolding start worker_count
blocked = (
  _,
  next
      (next
        (next
          (next
            (next
              (next (next here (send eth0_link [] refl (omega arith) refl)) (close_work refl refl))
              (take_link (record {
                before = [];
                st = no_stats;
                behind = [];
                link = eth0_link;
                rest = [];
                is_worker = refl;
                is_head = refl;
                result = refl;
              })))
            (process_link (record {
              before = [];
              st = no_stats;
              behind = [];
              link = eth0_link;
              seen = machine;
              shaper_seen = initial [];
              left = initial [];
              is_worker = refl;
              room = omega arith;
              result = refl;
            })))
          (finish (record {
            before = [];
            st = one_done;
            behind = [];
            is_worker = refl;
            is_empty = refl;
            is_closed = refl;
            room = omega arith;
            result = refl;
          })))
        (wait refl (one_more none_left) refl))
      (receive_error nil (plain (bytes "no tc")) [] refl refl refl),
)

apply_to_links_hangs_example :
    (7 ≤ 11)
    × (has_returned blocked.0.caller ≡ false)
    × (Next failing blocked.0 ⊎ IsBlocked blocked.0)
apply_to_links_hangs_example =
    apply_to_links_hangs failing machine (eth0_link ∷ []) (initial []) blocked.1

pub listing_fails : (x : GoError) × ((list_and_prepare_links broken (initial [])).0 ≡ err x)
unfolding list_and_prepare_links
listing_fails = (_, refl)

pub fails :
    ApplyInterfaces broken no_message profiles none
      (initial [])
      (some listing_fails.0)
      (list_and_prepare_links broken (initial [])).1
fails = list_fails listing_fails.0 listing_fails.1 refl refl

ApplyInterfaces-returns_example :
    ((x : GoError) × ((list_and_prepare_links broken (initial [])).0 ≡ err x)
      × (some listing_fails.0 ≡ some x))
    ⊎ (((list_and_prepare_links broken (initial [])).0 ≡ ok []) × (some listing_fails.0 ≡ none))
ApplyInterfaces-returns_example = ApplyInterfaces-returns broken no_message profiles fails

ApplyInterfaces-terminates_example :
    ((e : Option GoError) × (t : Shaper) × ApplyInterfaces broken no_message profiles none
        (initial [])
        e
        t)
    ↔ ((l : Link) (ls : List Link) → (list_and_prepare_links broken (initial [])).0 ≢ ok (l ∷ ls))
ApplyInterfaces-terminates_example =
    ApplyInterfaces-terminates broken no_message profiles none (initial [])
