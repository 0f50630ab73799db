-- ===== src/Lib.antt =====
-- Jackalope FS, a client/server network filesystem for Linux: a verification library for the
-- parts of it that decide.
--
-- The client mounts a directory of a server. A connection (QUIC) carries requests, each on a
-- stream of its own, and a session outlives its connections: the client resumes it after a loss.
-- The server runs the changes of a session in the order that the session's counts keep, holds
-- the files that its clients opened, and maps owners both ways.
--
-- Parts and files:
--
-- Common: what the other files share. Numbers are native, with Boolean tests; lists, indexed and
--   counted; and maps as lists of pairs whose keys rise (Common/Assoc).
-- Session (crates/server/src/session.rs): Session/State has SessionState, Attachment, Exchange
--   and the drop of GuardExchange, a method under one name each (begin, abandon, fencing,
--   drained, stopped, guard_drop; reattach and detach_at are what Sessions::resume and
--   Sessions::detach, which are in Sessions, do to the session that they found). Each runs under
--   the attachment's lock, so Session/Steps makes each one step of a session with its requests,
--   and a history is a list of steps. The children prove what the steps keep.
--   Session/Tasks has handle_request by the calls that it makes: where its task is, and the
--   worker that runs the operation.
-- Sessions (crates/server/src/session.rs): Sessions, the table that outlives connections.
--   Sessions/Table has its methods under their names; Sessions/Steps has a step for each thing
--   that happens to it, with the requests' holds on a session and the drop of its last
--   reference; the others prove what a client gets back and the room that a new session makes.
-- Events (crates/server/src/watch.rs): Events/Origins has ChangeLog, the items of an inotify
--   event and fold_events, which finds their origins; Events/Window has Pending and EventBatch,
--   and Events/Told who is told of an item.
-- Watch (crates/server/src/watch.rs): Table, the directories that inotify watches. Watch/Tree
--   has the tree of nodes, whose marks stand in a store, since the holds of requests share them;
--   Watch/Table the table, with the drop and the move of a subtree; Watch/Ops eviction, place,
--   install, verify and still_there; Watch/Arm touch, extend, arm and the holds; Watch/Apply the
--   events of a batch; Watch/Steps a history. What the system answers to the methods of Marks is
--   a parameter, which may answer anything. Directories, descriptors and marks are numbers.
-- Handles (crates/server/src/handles.rs): Handles/Table has HandlePool, Slot and Handles, a
--   method under one name each (insert_slot is Slot::insert with the drop of its slot, drop_slot
--   the drop of a slot that no handle took, drop_table the drop of the table). Handles/World has
--   all tables on one pool, a step each.
-- Proto (crates/proto/src/types.rs, msg.rs, owners.rs): names and paths, requests and replies,
--   and the owners in replies and in POSIX ACLs.
-- Dirents (crates/server/src/dirents.rs, with dir_entry_bytes of crates/proto/src/wire.rs):
--   Dirents/Parse has the records of a buffer, Dirents/Page read_dir. What the system answers is
--   a parameter: to the seek, to each getdents64 until one fills nothing, and for the attributes
--   of each entry, which may be another for each record. Dirents/Described says what the
--   entry of a record is, and Dirents/Listing what a page is. Dirents/Round has the format of a
--   record, as getdents64(2) gives it.
-- Ids (crates/server/src/ids.rs, crates/client/src/ids.rs): the two IdMaps, Server and Client,
--   and what passes between them.
-- Call (crates/client/src/machine.rs, crates/client/src/client.rs): CallState and what it asks;
--   Call/Attempts has the loop of Caller::attempt as steps.
-- Releases (crates/client/src/handles.rs): the releases that a client owes its server, a step
--   for each operation on them.
-- Nodes (crates/client/src/inodes.rs): NodeTable, the inodes that the kernel knows, with the
--   names and files of each. Nodes/Table has its data and its small changes, Nodes/Numbers the
--   number that a file is shown under (id_for), Nodes/Ops the operations, Nodes/Names the paths
--   and alias_was_wrong; Nodes/Steps has a history of operations from NodeTable::new,
--   Nodes/Lookups the lookups that the kernel holds after one. A map that
--   nothing lists is a function.
-- Opened (crates/client/src/handles.rs, crates/client/src/machine.rs): Opened/Table has
--   HandleTable without its releases, which are Releases; Opened/Round has ReopenRound and a
--   step for each thing that happens to a client's handles, in any order. A record of a handle
--   is shared by the table and the round, so records stand in a store and both name their
--   places.
-- Readahead (crates/client/src/readahead.rs): RunRead and its finding in Readahead/Run;
--   Readahead/Meter has the reads of a file as a history, with a meter of its times that the run
--   is compared to. A quotient of an f64 is the pair of its numbers.
-- Perf (crates/perf/src/lib.rs, histogram.rs): doubling_due, which the handles use, and the
--   buckets of a histogram.
-- Tests: runs on small inputs, and the theorems at such inputs.
--
-- Integers are natural numbers: a signed one is its bit pattern, and where the code relies on a
-- width it is written out. A counter that the code takes down, and an assertion, are a result of
-- Option in which none is the panic. Instants, addresses, descriptors and tokens are numbers,
-- which are only compared. Paths are lists of names, and names and messages lists of bytes.
--
-- Fuel: the loop of doubling_due has fuel 65, and a u64 doubles 63 times at most; the position
-- of the highest bit has fuel 64, the width of its number. Both are enough, by theorems of Perf.
-- The loop of parse has fuel for each byte, and a record has at least one: a theorem of Dirents
-- shows that this is enough for any buffer of records. id_for has fuel for one node more than
-- the table has, and names_to goes MAX_DEPTH levels up as in the code; theorems of Nodes say
-- when that is enough. The loop of Table::evict has as much fuel as it has directories to drop,
-- and drops at least one at each turn.
--
-- Not modelled: connections, timers and system calls; the FUSE bridge; the wire codec, whose
-- code is generated in the build; counters, logs and the control tool; the loop that polls
-- inotify and the budget's reading from sysctl; the handshake and the loops that serve a
-- connection; the listing of the inode table, which is in the order of a hash map, and the
-- notices sent to the kernel; the rows by process of the handles. Locks are taken as giving one
-- step each, and a relaxed counter as exact.
pub mod Common
pub mod Perf
pub mod Events
pub mod Handles
pub mod Proto
pub mod Ids
pub mod Call
pub mod Session
pub mod Sessions
pub mod Watch
pub mod Dirents
pub mod Readahead
pub mod Releases
pub mod Nodes
pub mod Opened
mod Tests
