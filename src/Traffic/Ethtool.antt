-- ===== src/Traffic/Ethtool.antt =====
-- ethtool_manager.go: the features of a network card are read once, and what differs is changed.
pub mod Features
pub mod Ensure
