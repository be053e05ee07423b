-- ===== src/Traffic.antt =====
-- internal/traffic: the traffic shaper.
pub mod Env
pub mod Links
pub mod Classifier
pub mod Profiles
pub mod Commands
pub mod Ethtool
pub mod Ifb
pub mod Shaper
pub mod Watcher
