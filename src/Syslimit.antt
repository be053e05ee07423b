-- ===== src/Syslimit.antt =====
-- internal/syslimit: limits of the system.
pub mod Persist
pub mod Sysctl
pub mod Limits
pub mod Rlimit
pub mod Undetected
pub mod Units
