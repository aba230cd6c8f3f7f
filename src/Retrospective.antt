-- ===== src/Retrospective.antt =====
-- pkg/hpa/retrospective: the timeline of past scaling decisions and its replay.
pub mod Patterns
pub mod Evidence
pub mod Decimal
pub mod Timeline
pub mod RoundTrip
pub mod Replay
pub mod Linked
pub mod Cycles
pub mod Windows
