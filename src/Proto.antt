-- ===== src/Proto.antt =====
-- crates/proto/src: what a client and a server say to each other.
pub mod Types
pub mod Path
pub mod Message
pub mod Owners
