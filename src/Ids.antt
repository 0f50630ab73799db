-- ===== src/Ids.antt =====
-- crates/server/src/ids.rs and crates/client/src/ids.rs: which owners the server lets through, how a
-- client shows them, and that the two agree.
pub mod Server
pub mod Client
pub mod Agree
pub mod Shown
