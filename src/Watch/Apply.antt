-- ===== src/Watch/Apply.antt =====
-- crates/server/src/watch.rs: what inotify reports, applied to the table.
use jackalopefs.Common.{
  ℕ, Bool, true, false, not, ◌&&◌, ◌||◌, Option, none, some, List, [], ◌∷◌, ◌++◌, if◌then◌else◌,
  lookup, insert, erase,
}
use jackalopefs.Proto.Path.{Named, new_name, join}
use jackalopefs.Proto.Message.{FilePath}
use jackalopefs.Events.Window.{EventItem}
use jackalopefs.Events.Origins.{
  intersects, in_modify, in_attrib, in_moved_from, in_moved_to, in_delete, items_for,
}
use jackalopefs.Watch.Tree.{State, Children, no_more, child, Node, detach}
use jackalopefs.Watch.Table.{Answer, Table, drop_tree, rekey, put, drop_at}
use jackalopefs.Watch.Ops.{open_dir, open_child, is_it, still_there}

-- Masks of inotify(7).
abbrev pub in_delete_self : ℕ
in_delete_self = 0x400

abbrev pub in_move_self : ℕ
in_move_self = 0x800

abbrev pub in_unmount : ℕ
in_unmount = 0x2000

abbrev pub in_q_overflow : ℕ
in_q_overflow = 0x4000

abbrev pub in_ignored : ℕ
in_ignored = 0x8000

abbrev pub in_isdir : ℕ
in_isdir = 0x40000000

pub record RawEvent : Type 0 where
  pub wd : ℕ
  pub mask : ℕ
  pub cookie : ℕ
  pub name : Option (List ℕ)

-- What of a directory is found where the table has it: opened as a child, and the same.
unfoldable pub find_here : State → List ℕ → ℕ → Table → Table × Option ℕ
unfolding open_child is_it
find_here (State.unwatchable at) name parent t = (t, none)
find_here (State.watched wd) name parent t =
    let (u, opened) = open_child t parent name in
    elim opened [
      | Answer.err e ↦ (u, none)
      | Answer.ok dir ↦ let (v, same) = is_it dir wd u in (v, if same then some dir else none)
    ]

-- `Table::recheck_below`.
unfoldable pub recheck_below : Children → ℕ → FilePath → Table → Table × Children
unfolding find_here drop_tree
recheck_below no_more parent names t = (t, no_more)
recheck_below (child x m s below others) parent names t =
    let here = names ++ x ∷ [] in
    let (u, found) = find_here s x parent t in
    elim found [
      | some dir ↦
          let (v, below') = recheck_below below dir here u in
          let (w, others') = recheck_below others parent names v in (w, child x m s below' others')
      | none ↦
          recheck_below others parent names
            (drop_tree true (record { mark = m; state = s; children = below }) here u)
    ]

-- The children of the root are dropped, each at its name.
unfoldable pub drop_each : Children → Table → Table
unfolding drop_tree
drop_each no_more t = t
drop_each (child x m s below others) t =
    drop_each others (drop_tree true (record { mark = m; state = s; children = below }) (x ∷ []) t)

unfoldable pub with_children : Table → Children → Table
with_children t cs = record t { root = record t.root { children = cs } }

-- `Table::recheck`.
unfoldable pub recheck : Table → Table
unfolding with_children open_dir recheck_below drop_each
recheck t =
    let cs = t.root.children in
    let (u, opened) = open_dir (with_children t no_more) [] in
    elim opened [
      | Answer.ok root ↦ let (v, kept) = recheck_below cs root [] u in with_children v kept
      | Answer.err e ↦ drop_each cs u
    ]

-- `Table::die`.
unfoldable pub die : Table → Table
unfolding with_children
die t = record (with_children t no_more) { by_wd = []; watched = 0; dead = true }

unfoldable pub push : EventItem → Table → Table
push item t = record t { out = t.out ++ item ∷ [] }

unfoldable pub is_root : FilePath → Bool
is_root [] = true
is_root (x ∷ names) = false

-- `Table::report`, with what it adds to `out`.
unfoldable pub report : RawEvent → Table → Table × Option (FilePath × List ℕ)
unfolding is_root push intersects items_for new_name
report e t = elim (lookup e.wd t.by_wd) [
  | none ↦ (t, none)
  | some dir ↦ elim e.name [
    | none ↦ (
      if is_root dir && (intersects e.mask in_modify || intersects e.mask in_attrib)
          then push (EventItem.data_of dir) t
          else t,
      none,
    )
    | some bytes ↦ elim (new_name bytes) [
      | Named.err error ↦ (t, none)
      | Named.ok name ↦ (record t { out = t.out ++ items_for dir e.mask name }, some (dir, name))
    ]
  ]
]

-- The directories that a batch of events took out of the table and has not put back, by cookie.
abbrev pub Moving : Type 0
Moving = List (ℕ × (FilePath × Node))

unfoldable pub drop_moving : Moving → Table → Table
unfolding drop_tree
drop_moving [] t = t
drop_moving ((cookie, (path, n)) ∷ moving) t = drop_moving moving (drop_tree true n path t)

-- A directory left `path`, if it is no longer there.
unfoldable pub moved_from : ℕ → FilePath → Table → Moving → Table × Moving
unfolding still_there detach
moved_from cookie path t moving =
    let (u, there) = still_there path t in
    if there then (u, moving) else elim (detach u.root path) [
      | none ↦ (u, moving)
      | some (n, root) ↦ (record u { root = root }, insert cookie (path, n) moving)
    ]

-- A directory came to `path`.
unfoldable pub moved_to : ℕ → FilePath → Table → Moving → Table × Moving
unfolding still_there drop_at drop_tree rekey put
moved_to cookie path t moving =
    let (u, there) = still_there path t in
    let rest = erase cookie moving in
    elim (lookup cookie moving) [
      | none ↦ (if there then u else drop_at true path u, rest)
      | some (from, n) ↦
          if there
          then (drop_tree true n from u, rest)
          else (let (v, moved) = rekey n path (drop_at true path u) in (put path moved v, rest))
    ]

unfoldable pub deleted : FilePath → Table → Table
unfolding still_there drop_at
deleted path t = let (u, there) = still_there path t in if there then u else drop_at true path u

-- The event is about a directory at `path`.
unfoldable pub apply_dir : RawEvent → FilePath → Table → Moving → Table × Moving
unfolding intersects moved_from moved_to deleted
apply_dir e path t moving =
    if intersects e.mask in_moved_from
    then moved_from e.cookie path t moving
    else if intersects e.mask in_moved_to
    then moved_to e.cookie path t moving
    else if intersects e.mask in_delete
    then (deleted path t, moving)
    else (t, moving)

-- An event in a directory that the table has.
unfoldable pub apply_entry : RawEvent → Table → Moving → Table × Moving
unfolding report intersects join apply_dir
apply_entry e t moving =
    let (u, reported) = report e t in
    elim reported [
      | none ↦ (u, moving)
      | some (dir, name) ↦
          if not (intersects e.mask in_isdir)
          then (u, moving)
          else elim (join dir name) [ none ↦ (u, moving) | some path ↦ apply_dir e path u moving ]
    ]

-- A watch ended, with its directory or alone.
unfoldable pub ended_watch : RawEvent → FilePath → Table → Table
unfolding is_root die push intersects drop_at
ended_watch e dir t =
    if is_root dir
    then push EventItem.overflow (die t)
    else if intersects e.mask in_ignored
    then drop_at false dir t
    else t

-- One turn of the loop of `Table::apply`.
unfoldable pub apply_event : RawEvent → Table → Moving → Table × Moving
unfolding intersects push drop_moving recheck ended_watch apply_entry
apply_event e t moving =
    if intersects e.mask in_q_overflow
    then (recheck (push EventItem.overflow (drop_moving moving t)), [])
    else elim (lookup e.wd t.by_wd) [
      | none ↦ (t, moving)
      | some dir ↦
          if intersects e.mask in_ignored
            || intersects e.mask in_unmount
            || intersects e.mask in_delete_self
          then (ended_watch e dir t, moving)
          else if intersects e.mask in_move_self
          then (t, moving)
          else apply_entry e t moving
    ]

-- The loop of `Table::apply`.
unfoldable pub apply_from : List RawEvent → Table → Moving → Table
unfolding apply_event drop_moving
apply_from [] t moving = drop_moving moving t
apply_from (e ∷ events) t moving = elim t.dead [
  | true ↦ drop_moving moving t
  | false ↦ let (u, moving') = apply_event e t moving in apply_from events u moving'
]

-- `Table::apply`.
unfoldable pub apply : List RawEvent → Table → Table
unfolding apply_from
apply events t = apply_from events t []
