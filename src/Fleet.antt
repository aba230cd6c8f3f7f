-- ===== src/Fleet.antt =====
-- pkg/hpa/fleet: the capacity risk of a fleet of autoscalers.
pub mod Report
pub mod Totals
