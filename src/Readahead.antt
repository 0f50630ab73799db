-- ===== src/Readahead.antt =====
-- crates/client/src/readahead.rs: whether the kernel's window of read-ahead holds a reader back.
pub mod Run
pub mod Meter
pub mod Kept
pub mod Found
pub mod Metered
