-- ===== src/Command.antt =====
-- cmd: the outcome of the status command for several HPAs, and the exit codes.
pub mod ExitCode
pub mod Batch
pub mod Outcome
