-- ===== src/Sessions.antt =====
-- crates/server/src/session.rs: the table of sessions (`Table`), what happens to it (`Steps`), which
-- sessions a client gets back (`Resumes`), and the room that a new one makes (`Room`).
pub mod Table
pub mod Steps
pub mod Found
pub mod Kept
pub mod Resumes
pub mod Room
