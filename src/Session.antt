-- ===== src/Session.antt =====
-- crates/server/src/session.rs: the ordering of one session's changes (`State`, with the states that it
-- passes through in `Steps`, and what is proved of them in `Counts` and `Order`).
pub mod State
pub mod Steps
pub mod Counts
pub mod Order
pub mod Progress
pub mod Tasks
