-- ===== src/Tests.antt =====
-- Concrete inputs, at which the theorems are applied.
mod Samples
mod Scale
mod Watch
mod Services
mod Files
mod Dashboard
mod Work
mod Store
mod Replay
mod Anomalies
mod Outcomes
mod Trends
