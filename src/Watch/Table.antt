-- ===== src/Watch/Table.antt =====
-- crates/server/src/watch.rs: `Table`, and how a tree of watches is dropped and moved. What the system
-- answers is a parameter: it may depend on how many calls of it there were. Logs are left out.
use jackalopefs.Common.{
  ℕ, suc, Bool, true, false, Option, none, some, List, [], ◌∷◌, ◌++◌, if◌then◌else◌, checked_pred,
  insert, erase, is_key,
}
use jackalopefs.Proto.Path.{join, split_last}
use jackalopefs.Proto.Message.{FilePath}
use jackalopefs.Events.Window.{EventItem}
use jackalopefs.Watch.Tree.{
  State, Children, no_more, child, Node, find_child, insert_child, node_at, change_at, detach,
}

pub data Answer : Type 0 where
  ok : ℕ → Answer
  err : ℕ → Answer

-- `Marks`, on directories and watch descriptors that are numbers; the first argument of an answer is
-- the number of calls before it.
pub record Marks : Type 0 where
  pub open_dir : ℕ → FilePath → Answer
  pub open_child : ℕ → ℕ → List ℕ → Answer
  pub add : ℕ → ℕ → Answer

-- What of `Mark` changes.
pub record Stamp : Type 0 where
  pub used : ℕ
  pub holds : ℕ

-- `out` is what the methods put there; `underflow` is set where `watched` is taken below zero.
pub record Table : Type 0 where
  pub marks : Marks
  pub calls : ℕ
  pub stamps : List Stamp
  pub root : Node
  pub by_wd : List (ℕ × FilePath)
  pub watched : ℕ
  pub budget : ℕ
  pub capped : Option (ℕ × ℕ)
  pub round : ℕ
  pub dead : Bool
  pub out : List EventItem
  pub underflow : Bool

-- `Marks::rm`, which answers nothing.
unfoldable pub rm : Table → Table
rm t = record t { calls = suc t.calls }

unfoldable pub take_one : Table → Table
take_one t = elim (checked_pred t.watched) [
  | none ↦ record t { underflow = true }
  | some n ↦ record t { watched = n }
]

-- The last lines of `Table::drop_tree`.
unfoldable pub drop_state : Bool → State → FilePath → Table → Table
unfolding rm take_one
drop_state announce (State.unwatchable at) path t = t
drop_state announce (State.watched wd) path t =
    let u =
      take_one (if is_key wd t.by_wd then rm (record t { by_wd = erase wd t.by_wd }) else t) in
    if announce then record u { out = u.out ++ EventItem.unwatched path ∷ [] } else u

unfoldable pub child_path : FilePath → List ℕ → FilePath
unfolding join
child_path path name = elim (join path name) [ none ↦ path | some p ↦ p ]

-- The loop of `Table::drop_tree`.
unfoldable pub drop_children : Bool → Children → FilePath → Table → Table
unfolding child_path drop_state
drop_children announce no_more path t = t
drop_children announce (child x m s below others) path t =
    let p = child_path path x in
    drop_children announce others path (drop_state announce s p (drop_children announce below p t))

-- `Table::drop_tree`, with whether it announces.
unfoldable pub drop_tree : Bool → Node → FilePath → Table → Table
unfolding drop_state drop_children
drop_tree announce n path t =
    drop_state announce n.state path (drop_children announce n.children path t)

unfoldable pub rekey_state : State → FilePath → Table → Table
rekey_state (State.unwatchable at) path t = t
rekey_state (State.watched wd) path t = record t { by_wd = insert wd path t.by_wd }

-- The loop of `Table::rekey`.
unfoldable pub rekey_children : Children → FilePath → Table → Table × Children
unfolding join rekey_state drop_tree
rekey_children no_more path t = (t, no_more)
rekey_children (child x m s below others) path t = elim (join path x) [
  | none ↦
      rekey_children others path
        (drop_tree true (record { mark = m; state = s; children = below }) path t)
  | some p ↦
      let (t1, below') = rekey_children below p (rekey_state s p t) in
      let (t2, others') = rekey_children others path t1 in (t2, child x m s below' others')
]

-- `Table::rekey`.
unfoldable pub rekey : Node → FilePath → Table → Table × Node
unfolding rekey_state rekey_children
rekey n path t =
    let (u, cs) = rekey_children n.children path (rekey_state n.state path t) in
    (u, record n { children = cs })

-- `Table::put`.
unfoldable pub put : FilePath → Node → Table → Table
unfolding split_last node_at find_child change_at insert_child drop_tree
put path n t = elim (split_last path) [
  | none ↦ t
  | some (parent, name) ↦ elim (node_at t.root parent) [
    | none ↦ drop_tree true n path t
    | some p ↦
        let u = record t { root = change_at t.root parent (insert_child name n) } in
        elim (find_child name p.children) [
          | none ↦ u
          | some displaced ↦ drop_tree true displaced path u
        ]
  ]
]

-- `Table::reroot`.
unfoldable pub reroot : FilePath → FilePath → Table → Table × Bool
unfolding detach rekey put
reroot from to t = elim (detach t.root from) [
  | none ↦ (t, false)
  | some (n, root) ↦
      let (u, moved) = rekey n to (record t { root = root }) in (put to moved u, true)
]

-- What `detach` and `drop_tree` do to a place, if anything is there.
unfoldable pub drop_at : Bool → FilePath → Table → Table
unfolding detach drop_tree
drop_at announce path t = elim (detach t.root path) [
  | none ↦ t
  | some (n, root) ↦ drop_tree announce n path (record t { root = root })
]
