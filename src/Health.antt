-- ===== src/Health.antt =====
-- pkg/hpa/health.go: the health score, its signals and the reconciliation with enrichment data.
pub mod Weights
pub mod Score
pub mod Dynamic
pub mod Conservation
pub mod Severity
pub mod Reconcile
