-- ===== src/Handles/Table.antt =====
-- crates/server/src/handles.rs: `HandlePool`, `Handles` and `Slot`, with what each method does. The
-- pool is shared, so a method that touches it takes it and returns it. `none` is a counter taken below
-- zero. A file's or a directory's descriptor and its watch are numbers.
use jackalopefs.Common.{
  ℕ, suc, ◌+◌, ◌-◌, ◌*◌, ◌/◌, Bool, true, false, not, Option, none, some, List, [], ltb,
  if◌then◌else◌, ◌>>=◌, checked_pred, length, lookup, insert, erase,
}
use Prim.Native.Nat.{min, max}
use jackalopefs.Perf.Doubling.{doubling_due}

-- `path` is the names from the export's root, each its bytes.
pub data Handle : Type 0 where
  file : ℕ → List (List ℕ) → Option ℕ → Handle
  dir : ℕ → Option ℕ → Handle

unfoldable pub is_dir : Handle → Bool
is_dir (Handle.file f path watch) = false
is_dir (Handle.dir d watch) = true

abbrev pub share_max : ℕ
share_max = 16384

abbrev pub reserved_fds : ℕ
reserved_fds = 2048

abbrev pub max_connections : ℕ
max_connections = 64

abbrev pub max_detached_sessions : ℕ
max_detached_sessions = 64

-- A `usize` has 64 bits, so the conversion does not saturate.
unfoldable pub pool_capacity : ℕ → ℕ
pool_capacity limit = limit - min reserved_fds (limit / 2)

unfoldable pub per_session : ℕ → ℕ
unfolding pool_capacity
per_session limit = min (pool_capacity limit / (max_connections + max_detached_sessions)) share_max

pub record HandlePool : Type 0 where
  pub capacity : ℕ
  pub used : ℕ

-- `HandlePool::take`; `none` where every slot is taken.
unfoldable pub take_slot : HandlePool → Option HandlePool
take_slot p = if ltb p.used p.capacity then some (record p { used = suc p.used }) else none

-- `HandlePool::give` of one slot.
unfoldable pub give : HandlePool → Option HandlePool
give p = do u ← checked_pred p.used; some (record p { used = u })

-- `HandlePool::give` of several.
unfoldable pub give_all : ℕ → HandlePool → Option HandlePool
give_all n p = if ltb p.used n then none else some (record p { used = p.used - n })

pub record NoticeHandles : Type 0 where
  pub held : ℕ
  pub share : ℕ

pub record Handles : Type 0 where
  pub table : List (ℕ × Handle)
  pub share : ℕ
  pub reported : ℕ
  pub files : ℕ
  pub dirs : ℕ
  pub notice : Option NoticeHandles

pub data ErrorReserve : Type 0 where
  pool_full duplicate : ErrorReserve

-- What `reserve` finds: a slot taken, the handle that is held, or no slot left.
pub data Reserved : Type 0 where
  slot : Reserved
  kept : Handle → Reserved
  refused : ErrorReserve → Reserved

unfoldable pub new : ℕ → Handles
new share = record { table = []; share = share; reported = 0; files = 0; dirs = 0; notice = none }

-- `Handles::reserve`.
unfoldable pub reserve : HandlePool → Handles → ℕ → HandlePool × Reserved
unfolding take_slot
reserve p h fh = elim (lookup fh h.table) [
  | some handle ↦ (p, kept handle)
  | none ↦ elim (take_slot p) [ none ↦ (p, refused pool_full) | some p' ↦ (p', slot) ]
]

-- The count of a handle's kind goes up by one.
count_up : Handles → Handle → Handles
unfolding is_dir
count_up h handle =
    if is_dir handle then record h { dirs = suc h.dirs } else record h { files = suc h.files }

count_down : Handles → Handle → Option Handles
unfolding is_dir
count_down h handle =
    if is_dir handle
    then (do n ← checked_pred h.dirs; some (record h { dirs = n }))
    else (do n ← checked_pred h.files; some (record h { files = n }))

-- The report of a table that holds `held` handles, when it is due.
unfoldable pub report : Handles → ℕ → Option (Handles × Option ℕ)
report h held = do
  (due, reported) ← doubling_due held (max h.share 1) h.reported
  if not due
      then some (record h { reported = reported }, none)
      else some (
        record h { reported = reported; notice = some (record { held = held; share = h.share }) },
        some held,
      )

-- What `Slot::insert` answers.
pub data Inserted : Type 0 where
  done : Option ℕ → Inserted
  failed : ErrorReserve → Inserted

-- The handle is counted and kept under its id.
unfoldable pub inserted : Handles → ℕ → Handle → Handles
unfolding count_up is_dir
inserted h fh handle = let h' = count_up h handle in record h' { table = insert fh handle h'.table }

-- The handle is no longer kept, nor counted.
unfoldable pub removed : Handles → ℕ → Handle → Option Handles
unfolding count_down is_dir
removed h fh handle = count_down (record h { table = erase fh h.table }) handle

-- `Slot::insert`, and the drop of the slot, which gives it back to the pool unless the handle took it.
unfoldable pub insert_slot :
    HandlePool → Handles → ℕ → Handle → Option (HandlePool × Handles × Inserted)
unfolding give
insert_slot p h fh handle = elim (lookup fh h.table) [
  | some other ↦ (do p' ← give p; some (p', h, failed duplicate))
  | none ↦ (do
    (h', answer) ← report (inserted h fh handle) (length (inserted h fh handle).table)
    some (p, h', done answer))
]

-- The drop of a slot that no handle took.
unfoldable pub drop_slot : HandlePool → Option HandlePool
unfolding give
drop_slot p = give p

-- `Handles::get`, `none` for `EBADF`.
unfoldable pub get : Handles → ℕ → Option Handle
get h fh = lookup fh h.table

-- `Handles::file_and_path`, of which `file` is the first part; `none` for `EBADF`.
unfoldable pub file_and_path : Handles → ℕ → Option (ℕ × List (List ℕ))
file_and_path h fh = elim (lookup fh h.table) [
  | some (Handle.file f path watch) ↦ some (f, path)
  | some (Handle.dir d watch) ↦ none
  | none ↦ none
]

-- `Handles::dir`.
unfoldable pub dir_of : Handles → ℕ → Option ℕ
dir_of h fh = elim (lookup fh h.table) [
  | some (Handle.file f path watch) ↦ none
  | some (Handle.dir d watch) ↦ some d
  | none ↦ none
]

-- Back under half its share, the session is reported afresh.
unfoldable pub settle : Handles → Handles
settle h = if ltb (2 * length h.table) h.share then record h { reported = 0; notice = none } else h

-- `Handles::remove`.
unfoldable pub remove : HandlePool → Handles → ℕ → Option (HandlePool × Handles × Option Handle)
unfolding give
remove p h fh = elim (lookup fh h.table) [
  | none ↦ some (p, h, none)
  | some handle ↦ (do p' ← give p; h' ← removed h fh handle; some (p', settle h', some handle))
]

-- The drop of a table.
unfoldable pub drop_table : HandlePool → Handles → Option HandlePool
unfolding give_all
drop_table p h = give_all (length h.table) p
