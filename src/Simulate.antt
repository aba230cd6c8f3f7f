-- ===== src/Simulate.antt =====
-- pkg/hpa/simulate: what a changed HPA would make the controller do.
pub mod Policy
pub mod PolicyBounds
pub mod Trajectory
pub mod Offsets
pub mod Projected
