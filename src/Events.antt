-- ===== src/Events.antt =====
-- pkg/hpa/internal/event: rescale data points and the direction of scaling.
pub mod Rescales
pub mod Direction
pub mod Permutation
pub mod Groups
pub mod Normalized
pub mod Flips
