-- ===== src/Events.antt =====
-- crates/server/src/watch.rs: the change events that a server pushes to its clients: who is taken for
-- the cause of one (`Origins`), the window that they gather in (`Window`), and who is told (`Told`).
pub mod Window
pub mod Origins
pub mod Told
