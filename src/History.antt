-- ===== src/History.antt =====
-- internal/history: the store of snapshots and the cache of scanned history files.
pub mod Cache
pub mod Entries
pub mod Bounds
pub mod Sorted
pub mod Search
pub mod Window
pub mod Store
pub mod Scan
pub mod Coherent
pub mod Written
pub mod Transparent
pub mod FileName
