-- ===== src/ScalePath.antt =====
-- pkg/hpa/scalepath.go: where a scale-up stops.
pub mod Path
pub mod Assess
pub mod Analyze
pub mod Counts
pub mod Blocking
