-- ===== src/Churn.antt =====
-- pkg/hpa/churn/churn.go: the latest burst of rescales, its score and what is recommended.
pub mod Segment
pub mod Analysis
pub mod Caution
pub mod Laws
