-- ===== src/Watch.antt =====
-- crates/server/src/watch.rs: the table of watched directories. `Tree` has the directories, `Table` the
-- table with its small changes, `Ops` what makes room, rechecks and places a watch, `Arm` what a request
-- asks for, `Apply` what inotify reports, and `Steps` a history; the others prove what it keeps.
pub mod Tree
pub mod Table
pub mod Ops
pub mod Arm
pub mod Apply
pub mod Weights
pub mod Counted
pub mod Steps
