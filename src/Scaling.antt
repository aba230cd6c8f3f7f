-- ===== src/Scaling.antt =====
-- pkg/hpa/scaling/policy.go: the replica bound that a set of rate policies allows.
-- Go's float64 is the parameter `Float64`: the operations that the percentage rule calls.
pub mod Policy
pub mod Bounds
pub mod Selection
