-- ===== src/Tui.antt =====
-- internal/tui: the terminal dashboard as a state machine, without its drawing. The views for
-- simulation, replay, history, hints and the batch audit are left out.
pub mod Scroll
pub mod Search
pub mod State
pub mod Lists
pub mod Fix
pub mod Batch
pub mod Refresh
pub mod Update
pub mod Invariant
pub mod Fetched
pub mod Valid
pub mod Approved
pub mod Armed
pub mod Confirmed
pub mod Runs
pub mod Groups
