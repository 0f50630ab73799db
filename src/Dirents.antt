-- ===== src/Dirents.antt =====
-- crates/server/src/dirents.rs: the records of a directory that the kernel fills a buffer with.
pub mod Parse
pub mod Round
pub mod Page
pub mod Collected
pub mod Paged
pub mod Described
pub mod Listing
