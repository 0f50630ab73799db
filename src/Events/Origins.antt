-- ===== src/Events/Origins.antt =====
-- crates/server/src/watch.rs: `ChangeLog`, the items of an inotify event with their origins, and the
-- directories that a request names. Paths are keys as the bytes that they render to.
use jackalopefs.Common.{
  ℕ, ◌-◌, Bool, not, Option, none, some, List, [], ◌∷◌, ◌++◌, ◌==◌, ltb, if◌then◌else◌, ◌>>=◌,
  length,
}
use Prim.Native.Nat.{bit_and, bit_or}
use jackalopefs.Proto.Message.{FilePath, Request}
use jackalopefs.Proto.Path.{join, split_last, to_bytes}
use jackalopefs.Proto.Owners.Acl.{same_bytes}
use jackalopefs.Events.Window.{EventItem, Pending, fold}

-- A session and the instant that it recorded a change at, in nanoseconds.
pub record ChangeLog : Type 0 where
  pub by_path : List ℕ → Option (ℕ × ℕ)
  pub order : List (List ℕ)

abbrev pub change_log_capacity : ℕ
change_log_capacity = 4096

abbrev pub origin_memory : ℕ
origin_memory = 1000000000

unfoldable pub put_record : List ℕ → ℕ × ℕ → (List ℕ → Option (ℕ × ℕ)) → List ℕ → Option (ℕ × ℕ)
put_record k v f j = if same_bytes j k then some v else f j

unfoldable pub drop_record : List ℕ → (List ℕ → Option (ℕ × ℕ)) → List ℕ → Option (ℕ × ℕ)
drop_record k f j = if same_bytes j k then none else f j

-- The loop that evicts the oldest.
unfoldable pub evict : List (List ℕ) → (List ℕ → Option (ℕ × ℕ)) → ChangeLog
unfolding drop_record
evict [] by_path = record { by_path = by_path; order = [] }
evict (k ∷ order) by_path =
    let rest = evict order (drop_record k by_path) in
    if ltb change_log_capacity (length (k ∷ order))
    then rest
    else record { by_path = by_path; order = k ∷ order }

-- `ChangeLog::record`, at an instant.
unfoldable pub record_change : ℕ → ChangeLog → FilePath → ℕ → ChangeLog
unfolding put_record evict to_bytes
record_change now log path session =
    let key = to_bytes path in
    let by_path = put_record key (session, now) log.by_path in
    elim (log.by_path key) [
      | some old ↦ record log { by_path = by_path }
      | none ↦ evict (log.order ++ key ∷ []) by_path
    ]

-- `ChangeLog::record_entry`.
unfoldable pub record_entry : ℕ → ChangeLog → FilePath → List ℕ → ℕ → ChangeLog
unfolding record_change join
record_entry now log dir name session = elim (join dir name) [
  | none ↦ log
  | some path ↦ record_change now log path session
]

-- `ChangeLog::take_origin`.
unfoldable pub take_origin : ℕ → ChangeLog → List ℕ → ChangeLog × Option ℕ
unfolding drop_record
take_origin now log key = elim (log.by_path key) [
  | none ↦ (log, none)
  | some (session, at) ↦ (
    record log { by_path = drop_record key log.by_path },
    if ltb (now - at) origin_memory then some session else none,
  )
]

-- `origin_key`.
unfoldable pub origin_key : EventItem → Option (List ℕ)
unfolding join to_bytes
origin_key (EventItem.entry dir name) = do path ← join dir name; some (to_bytes path)
origin_key (EventItem.data_of path) = some (to_bytes path)
origin_key EventItem.overflow = none
origin_key (EventItem.unwatched dir) = none

unfoldable pub take_item_origin : ℕ → ChangeLog → EventItem → ChangeLog × Option ℕ
unfolding origin_key take_origin
take_item_origin now log item = elim (origin_key item) [
  | none ↦ (log, none)
  | some key ↦ take_origin now log key
]

-- `fold_events`, at an instant.
unfoldable pub fold_events : ℕ → Pending → ChangeLog → List EventItem → Pending × ChangeLog
unfolding fold take_item_origin
fold_events now p log [] = (p, log)
fold_events now p log (item ∷ items) =
    let (log', origin) = take_item_origin now log item in
    fold_events now (fold p item origin) log' items

-- Masks of inotify(7).
abbrev pub in_modify : ℕ
in_modify = 0x2

abbrev pub in_attrib : ℕ
in_attrib = 0x4

abbrev pub in_moved_from : ℕ
in_moved_from = 0x40

abbrev pub in_moved_to : ℕ
in_moved_to = 0x80

abbrev in_create : ℕ
in_create = 0x100

abbrev pub in_delete : ℕ
in_delete = 0x200

unfoldable pub intersects : ℕ → ℕ → Bool
intersects mask other = not (bit_and mask other == 0)

-- `items_for`.
unfoldable pub items_for : FilePath → ℕ → List ℕ → List EventItem
unfolding intersects join
items_for dir mask name =
    (if intersects mask (bit_or (bit_or in_create in_delete) (bit_or in_moved_from in_moved_to))
      then EventItem.entry dir name ∷ []
      else [])
    ++ (if intersects mask (bit_or in_modify in_attrib)
        then (elim (join dir name) [ none ↦ [] | some path ↦ EventItem.data_of path ∷ [] ])
        else [])

-- `parent_of`.
unfoldable pub parent_of : FilePath → FilePath
unfolding split_last
parent_of path = elim (split_last path) [ none ↦ [] | some (parent, last) ↦ parent ]

-- `dirs_named`.
unfoldable pub dirs_named : Request → List FilePath
unfolding parent_of
dirs_named (Request.lookup parent name) = parent ∷ []
dirs_named (Request.mknod parent name mode rdev) = parent ∷ []
dirs_named (Request.mkdir parent name mode) = parent ∷ []
dirs_named (Request.unlink parent name) = parent ∷ []
dirs_named (Request.rmdir parent name) = parent ∷ []
dirs_named (Request.symlink parent name target) = parent ∷ []
dirs_named (Request.create fh parent name mode flags) = parent ∷ []
dirs_named (Request.rename parent name newparent newname flags) = parent ∷ newparent ∷ []
dirs_named (Request.link path newparent newname) = parent_of path ∷ newparent ∷ []
dirs_named (Request.getattr none fh) = []
dirs_named (Request.getattr (some path) fh) = parent_of path ∷ []
dirs_named (Request.setattr none fh change) = []
dirs_named (Request.setattr (some path) fh change) = parent_of path ∷ []
dirs_named (Request.readlink path) = parent_of path ∷ []
dirs_named (Request.open_file fh path flags) = parent_of path ∷ []
dirs_named (Request.setxattr path name value flags) = parent_of path ∷ []
dirs_named (Request.getxattr path name) = parent_of path ∷ []
dirs_named (Request.listxattr path) = parent_of path ∷ []
dirs_named (Request.removexattr path name) = parent_of path ∷ []
dirs_named (Request.access path mask) = parent_of path ∷ []
dirs_named (Request.opendir fh path) = path ∷ []
dirs_named _ = []
