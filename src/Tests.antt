-- ===== src/Tests.antt =====
-- Runs of the model on small inputs, and the theorems applied to them.
mod World
mod Route
mod Classes
mod Pass
mod Watch
mod Daemon
mod Sysctl
mod Machine
mod Config
mod Limits
