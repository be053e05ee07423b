-- ===== src/Traffic/Watcher.antt =====
-- netlink_watcher.go: changes are collected between two ticks, and applied at a tick.
pub mod Pending
pub mod Loop
pub mod Watch
