-- ===== src/Opened.antt =====
-- crates/client/src/handles.rs, and the reopens of crates/client/src/machine.rs: the handles that a
-- client holds (`Table`), and what becomes of them in a new session (`Round`).
pub mod Table
pub mod Round
pub mod Dead
pub mod Changes
pub mod Covered
