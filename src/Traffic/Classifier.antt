-- ===== src/Traffic/Classifier.antt =====
-- internal/traffic/classifier*.go: the class of an interface, and the caches behind it.
pub mod Patterns
pub mod Detect
pub mod Refresh
pub mod Classify
