-- ===== src/Traffic/Shaper.antt =====
-- shaper*.go: how a profile is put on an interface, and the pass over all interfaces.
pub mod Steps
pub mod Report
pub mod Configure
pub mod Process
pub mod Cleanup
pub mod Pool
pub mod Apply
