-- ===== src/HealthTrend.antt =====
-- pkg/hpa/healthtrend: the history of health scores over time.
pub mod Anomaly
pub mod Stuck
pub mod Laws
