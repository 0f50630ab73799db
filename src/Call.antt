-- ===== src/Call.antt =====
-- crates/client/src/machine.rs, and the parts of crates/client/src/client.rs that it asks: one call,
-- from its start to its end.
pub mod Machine
pub mod Attempts
