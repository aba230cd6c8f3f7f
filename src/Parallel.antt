-- ===== src/Parallel.antt =====
-- cmd/parallel.go: one piece of work for each name, at the same time.
pub mod Pool
pub mod Order
pub mod Progress
