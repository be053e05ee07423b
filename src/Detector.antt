-- ===== src/Detector.antt =====
-- internal/detector: the memory tier, and what the machine must offer.
pub mod Memory
pub mod Modules
pub mod Runtime
