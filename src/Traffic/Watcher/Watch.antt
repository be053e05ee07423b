-- ===== src/Traffic/Watcher/Watch.antt =====
-- netlink_watcher.go, `Watch` and its netlink subscriptions.
use tcsss.Prelude.{
  ◌≡◌, Bool, true, false, Option, none, some, List, ◌++◌, M, ◌>>=◌, return, if◌then◌else◌,
}
use tcsss.Text.Ops.{Text, bytes}
use tcsss.Errors.{GoError, plain, wrapped, typed, critical, no_context}
use tcsss.Traffic.Env.{Env, History, ask, link_subscribe, addr_subscribe, Shaper}
use tcsss.Traffic.Commands.{Message}
use tcsss.Traffic.Profiles.{ProfileSet}
use tcsss.Traffic.Watcher.Loop.{Watcher, stopped, initial_watcher, Event, Run}

-- A channel that only tells its reader to stop. A second `close` panics.
pub data DoneChan : Type 0 where
  opened closed closed_twice : DoneChan

abbrev pub close_chan : DoneChan → DoneChan
close_chan opened = closed
close_chan _ = closed_twice

-- `netlinkSubscriptions`, without the two channels that the loop receives from.
pub record Subscriptions : Type 0 where
  pub link_done : DoneChan
  pub addr_done : DoneChan
  -- The `Once` has run.
  pub close_once : Bool

abbrev pub new_subscriptions : Subscriptions
new_subscriptions = record { link_done = opened; addr_done = opened; close_once = false }

-- `Close`
unfoldable pub close_subscriptions : Subscriptions → Subscriptions
close_subscriptions subs = if subs.close_once then subs else record {
  link_done = close_chan subs.link_done;
  addr_done = close_chan subs.addr_done;
  close_once = true;
}

abbrev pub subscribe_error : Text → Text → GoError → GoError
subscribe_error text operation e =
    typed critical (wrapped text e) (record no_context { operation = operation })

-- `setupNetlinkSubscriptions`: the subscriptions made, and the error.
unfoldable pub setup_netlink_subscriptions : Env → M History (Subscriptions × Option GoError)
unfolding close_subscriptions
setup_netlink_subscriptions env = ask env.subscribe_links link_subscribe >>= λ link_error.
    elim link_error [
      | some x ↦ return (
        close_subscriptions new_subscriptions,
        some (subscribe_error (bytes "subscribe link") (bytes "netlink_link_subscribe") x),
      )
      | none ↦ ask env.subscribe_addrs addr_subscribe >>= λ addr_error. elim addr_error [
        | some x ↦ return (
          close_subscriptions new_subscriptions,
          some (subscribe_error (bytes "subscribe addr") (bytes "netlink_addr_subscribe") x),
        )
        | none ↦ return (new_subscriptions, none)
      ]
    ]

-- The recovered panic of `Watch`, where no error was returned.
abbrev pub watcher_panic : Text → GoError
watcher_panic text = plain (bytes "watcher panic: " ++ text)

module _ (env : Env) (message : Message) (profiles : ProfileSet) where
  -- `Watch`, called in `s`, returns `e` and leaves the subscriptions `subs`.
  pub data Watch (s : Shaper) (e : Option GoError) (subs : Subscriptions) : Type 0 where
    setup_fails :
        (x : GoError)
        → (setup_netlink_subscriptions env s.history).0.1 ≡ some x
        → e ≡ some x
        → subs ≡ (setup_netlink_subscriptions env s.history).0.0
        → Watch s e subs
    loop_returns :
        (events : List Event) (v : Watcher) (x : GoError)
        → (setup_netlink_subscriptions env s.history).0.1 ≡ none
        → Run env message profiles
            (initial_watcher (record s { history = (setup_netlink_subscriptions env s.history).1 }))
            events
            v
        → v.status ≡ stopped x
        → e ≡ some x
        → subs ≡ close_subscriptions (setup_netlink_subscriptions env s.history).0.0
        → Watch s e subs
    -- The loop panics.
    panics :
        (text : Text)
        → (setup_netlink_subscriptions env s.history).0.1 ≡ none
        → e ≡ some (watcher_panic text)
        → subs ≡ close_subscriptions (setup_netlink_subscriptions env s.history).0.0
        → Watch s e subs
