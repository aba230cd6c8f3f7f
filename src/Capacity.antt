-- ===== src/Capacity.antt =====
-- pkg/hpa/capacityplan: how many pods fit, and what is recommended.
pub mod Fit
pub mod FitSearch
pub mod Decision
pub mod Safety
pub mod Target
