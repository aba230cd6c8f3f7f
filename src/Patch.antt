-- ===== src/Patch.antt =====
-- internal/patch/merge.go: merging of JSON merge patches.
pub mod Json
pub mod Merge
pub mod Lookup
pub mod Errors
pub mod Leaves
