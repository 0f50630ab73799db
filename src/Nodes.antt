-- ===== src/Nodes.antt =====
-- crates/client/src/inodes.rs: the client's inode table (`Table`), the number of a
-- file (`Numbers`), the operations (`Ops`, `Names`), and what they keep.
pub mod Table
pub mod Numbers
pub mod Ops
pub mod Names
pub mod Views
pub mod Links
pub mod Kept
pub mod Held
pub mod Steps
pub mod Lookups
pub mod Renames
pub mod Probes
pub mod Paths
