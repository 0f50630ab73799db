-- ===== src/Handles.antt =====
-- crates/server/src/handles.rs: the handles of a session, and the pool that every session draws on.
pub mod Table
pub mod World
pub mod Pool
pub mod Opens
pub mod Shares
pub mod Faults
