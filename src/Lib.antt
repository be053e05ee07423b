-- ===== src/Lib.antt =====
-- Verification of tcsss, a daemon that shapes traffic on the interfaces of a Linux machine.
--
-- The program. `main` of cmd/tcsss/main.go finds the template directory, checks the machine, and chooses
-- a traffic template. `Run` of internal/app/daemon.go applies four services in order: sysctl, limits, rlimit and
-- traffic; then it starts the watch of the traffic service. `Apply` of internal/traffic/shaper.go first
-- lets the route optimizer of internal/route change the window parameters of the routes, then makes a
-- pass over the interfaces (shaper_apply.go): it lists the links, refreshes which of them are external,
-- configures each link by its class in a pool of goroutines, and deletes ifb devices no longer needed.
-- The watcher (netlink_watcher.go) collects changed links and makes a pass over them at each tick.
--
-- The files, with the code that each models:
--   Prelude, Prelude/*: shared names, Boolean tests, lists, state passing, Go's int.
--   Text, Text/*: what is used of Go's packages strings, strconv, sort and bufio; maps with text keys.
--   Errors: internal/errors (`New`, `WrapRecoverable`, `Merge`, `ToMap`, `MultiError`); Errors/Laws;
--     Errors/Print: the texts of its errors.
--   Route/Config: internal/route/config.go. Route/Lines: `cleanRouteLine` of optimizer.go and the text
--     functions of detection.go. Route/Optimizer: the jobs of optimizer.go (`optimize`, `applyRoutes`).
--     Route/Detection: detection.go. Route/Optimize: `Optimize` with its three parts.
--   Traffic/Env: internal/traffic/deps.go, the outside world, and the state of `Shaper`.
--     Traffic/Links: `safeGetLinkAttrs` and `getLinkName` there.
--   Traffic/Classifier/*: classifier.go, classifier_cache.go, classifier_detect.go,
--     classifier_patterns.go. Traffic/Profiles: settings.go, profiles.go, signature.go.
--   Traffic/Commands: tc_config.go, tc_executor.go. Traffic/Ethtool/*: ethtool_manager.go.
--   Traffic/Ifb: ifb_manager.go.
--   Traffic/Shaper/Steps: shaper_steps.go. Traffic/Shaper/Configure: `configureProfile` and what it calls.
--     Traffic/Shaper/Report: shaper_errors.go. Traffic/Shaper/Process: `processLink`. Traffic/Shaper/Cleanup: shaper_cleanup.go.
--     Traffic/Shaper/Pool: `applyToLinks`, `linkWorker`, `summarizeLinkResults`.
--     Traffic/Shaper/Apply: `applyInterfaces`, `Apply`.
--   Traffic/Watcher/Pending: `pendingChanges`. Traffic/Watcher/Loop: `watchLoop`, `applyPending`.
--   Traffic/Watcher/Watch: `Watch` and its subscriptions.
--   Daemon: internal/app/daemon.go; Daemon/Hangs: the daemon with the shaper as its traffic service.
--   System: the operating system as the following files use it. Double: floating-point numbers.
--   Config/Types: internal/config/types.go. Config/Mode, Config/Window, Config/Tiers, Config/Selector:
--     internal/config/selector.go (modes, window sizes, memory tiers, the sets of templates).
--   Sysinfo: internal/sysinfo/memory.go. Detector/Memory, Detector/Modules, Detector/Runtime:
--     internal/detector. Main: cmd/tcsss/main.go; Main/Signals: its `signalContext`; Main/Exit: how it ends.
--   Syslimit/Sysctl: `parseTemplate`, `isSysctlKey`, `extractKey` and `merge` of
--     internal/syslimit/sysctlconf.go; Syslimit/Sysctl/Apply: its `SysctlConfApplier`;
--     Syslimit/Persist: `writeFileWithSync`, `reloadSysctl`.
--   Syslimit/Limits, Syslimit/Limits/Apply: internal/syslimit/limits.go. Syslimit/Rlimit: rlimit.go.
--   Tests/*: runs on small inputs. All other child modules hold proofs about their parent.
--
-- How the code is modelled. A Go string is the list of its bytes; case and space are those of ASCII. A Go
-- int is an integer; `atoi` has the bounds of 64 bits, and the sum of `bytesToSegments` wraps. A Go error
-- is a value of `GoError`, nil is `none`; the texts put around a wrapped error are kept without the
-- values printed into them, and the text of an error, which only `containsAny` and the
-- detector read, is a parameter (`Message`, `message`). A Go map is an association list read by `lookup`; where the code ranges over a map, the
-- list is in the order of that range, which is any.
--   Netlink, sysfs, the clock and external commands are fields of `Env`: a function of all calls made so
-- far gives each answer, so `Env` is any environment, also one that changes by itself. Methods pass the
-- state `Shaper`, which holds the calls made so far. Timeouts and contexts are part of the answer.
--   In the same way the fields of `System` answer for files, commands, the environment and the limits of
-- the process, and the functions that use it pass the log of all calls. A float64 is a value of the type
-- that `Double` has the operations of, with no law. `sort.Slice` is a parameter, and so is `visit`, which
-- gives the entries of a map in the order of a `range`. The templates' size pattern is read by hand
-- (`match_tier`). A limit of a resource is an integer below 2^64, and its product with 1024 wraps.
--   The goroutines of the pool are a step relation: a step sends or receives on one channel, or processes
-- comes to the end of one link; the order of the steps is free. As the calls of other workers come in
-- between, `processLink` is run there in any environment and any shaper that its worker may have seen,
-- and leaves any shaper; the calls of netlink and of commands return. A pass is a relation between a call and its
-- return, so a call that never returns is related to nothing. The watcher is a step relation with one
-- event of its `select` for each step.
--   Recursion is structural everywhere, but for the printing of numbers, on fuel n + 1 for the number n,
-- which has at most that many digits.
--
-- What is left out: logs and what is read for them only, but for the entry that
-- `handleCategorizedError` writes (Traffic/Shaper/Report); locks; a link that is nil while its error is
-- nil counts as a link without attributes; `ErrorContext.Merge` gives a new context, where the source
-- also writes into the receiver's `Extra`. Not modelled: flag parsing (what it comes to is the parameter
-- `flags` of Main/Exit), the conversion of log
-- attributes in internal/errors/logging.go, and the templates, which are data. The services are
-- parameters of the daemon; Daemon/Hangs takes the shaper for one of them.
pub mod Prelude
pub mod Text
pub mod Errors
pub mod Route
pub mod Traffic
pub mod System
pub mod Double
pub mod Sysinfo
pub mod Config
pub mod Detector
pub mod Main
pub mod Daemon
pub mod Syslimit
pub mod Tests
