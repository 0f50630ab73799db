-- ===== src/Tests/Watches.antt =====
-- crates/server/src/watch.rs: directories watched, moved and lost.
use jackalopefs.Common.{ℕ, ◌+◌, ◌*◌, ◌≡◌, ◌⊎◌, refl, true, none, some, List, [], ◌∷◌, length}
use jackalopefs.Proto.Path.{join, from_names, byte_len, split_last, new_name, any_bad, is_dots}
use jackalopefs.Proto.Owners.Acl.{same_bytes}
use jackalopefs.Nodes.Names.{same_names}
use jackalopefs.Events.Origins.{intersects, items_for}
use jackalopefs.Watch.Tree.{
  is_watched, find_child, remove_child, insert_child, node_at, change_at, detach,
}
use jackalopefs.Watch.Table.{
  Answer, Marks, Table, rm, take_one, drop_state, child_path, drop_children, drop_tree, rekey_state,
  rekey_children, rekey, put, reroot, drop_at,
}
use jackalopefs.Watch.Ops.{
  budget_at, new_node, holds_of, used_of, any_watched, starts_with, leaves_of, bytes_le, names_le,
  leaf_le, insert_leaf, sort_leaves, drop_leaves, evict_more, evict, limited, put_new, place, add,
  open_dir, open_child, put_unwatchable, settle_install, is_full, install, verify, is_it,
  still_there,
}
use jackalopefs.Watch.Arm.{
  stamp, hold, let_go, touch_from, touch, deepest_watched, take_names, skip_names, extend_from,
  extend, arm,
}
use jackalopefs.Watch.Apply.{
  RawEvent, find_here, recheck_below, drop_each, with_children, recheck, die, push, is_root, report,
  drop_moving, moved_from, moved_to, deleted, apply_dir, apply_entry, ended_watch, apply_event,
  apply_from, apply,
}
use jackalopefs.Watch.Steps.{Action, IsPaired, run-IsExact, watches_arm, watch_root, new, step, run}
use jackalopefs.Watch.Counted.{IsExact}
use jackalopefs.Watch.Counted.Moving.{takes_cookie, cookies_once}

program : Unit {0}
unfolding join from_names byte_len split_last new_name any_bad is_dots same_bytes same_names
    intersects items_for takes_cookie cookies_once IsPaired is_watched find_child remove_child
    insert_child node_at change_at detach rm take_one drop_state child_path drop_children drop_tree
    rekey_state rekey_children rekey put reroot drop_at budget_at new_node holds_of used_of
    any_watched starts_with leaves_of bytes_le names_le leaf_le insert_leaf sort_leaves drop_leaves
    evict_more evict limited put_new place add open_dir open_child put_unwatchable settle_install
    is_full install verify is_it still_there stamp hold let_go touch_from touch deepest_watched
    take_names skip_names extend_from extend arm find_here recheck_below drop_each with_children
    recheck die push is_root report drop_moving moved_from moved_to deleted apply_dir apply_entry
    ended_watch apply_event apply_from apply watches_arm watch_root new step run
program = tt

-- A directory's descriptor is one more than its number; a directory is found only in its parent.
abbrev system : Marks
system = record {
  open_dir = λ calls path. elim path [ [] ↦ Answer.ok 0 | ◌∷◌ x xs ↦ Answer.err 2 ];
  open_child = λ calls dir name. Answer.ok (10 * dir + length name);
  add = λ calls dir. Answer.ok (dir + 1);
}

abbrev name_a : List ℕ
name_a = 97 ∷ []

abbrev name_b : List ℕ
name_b = 98 ∷ 98 ∷ []

abbrev begun : Table
unfolding program
begun = watch_root system 100 1

-- The directory `a`, and `bb` in it.
abbrev acts : List Action
acts = Action.arms (name_a ∷ name_b ∷ []) 5 ∷ []

abbrev armed : Table
unfolding program
armed = run begun acts

armed_by_wd : armed.by_wd ≡ (1, []) ∷ (2, name_a ∷ []) ∷ (13, name_a ∷ name_b ∷ []) ∷ []
unfolding program
armed_by_wd = refl

abbrev leaves_a : RawEvent
leaves_a = record { wd = 1; mask = 0x40000040; cookie = 7; name = some name_a }

abbrev comes_as_b : RawEvent
comes_as_b = record { wd = 1; mask = 0x40000080; cookie = 7; name = some name_b }

abbrev moved : Table
unfolding program
moved = run armed (Action.applies (leaves_a ∷ comes_as_b ∷ []) ∷ [])

moved_by_wd : moved.by_wd ≡ (1, []) ∷ (2, name_b ∷ []) ∷ (13, name_b ∷ name_b ∷ []) ∷ []
unfolding program
moved_by_wd = refl

-- The root's watch ends in the batch in which a directory left: what left is counted off once more.
abbrev root_gone : RawEvent
root_gone = record { wd = 1; mask = 0x8000; cookie = 0; name = none }

ended_underflow : (run armed (Action.applies (leaves_a ∷ root_gone ∷ []) ∷ [])).underflow ≡ true
unfolding program
ended_underflow = refl

abbrev all_acts : List Action
all_acts = Action.arms (name_a ∷ name_b ∷ []) 5 ∷ Action.applies (leaves_a ∷ comes_as_b ∷ []) ∷ []

run-IsExact_example : ((run begun all_acts).dead ≡ true) ⊎ IsExact (run begun all_acts) (λ w. 0) 0
unfolding program
run-IsExact_example = run-IsExact system 100 begun all_acts refl (tt, (refl, tt))

-- A directory that left is still found under its old path while the batch lasts: one that comes into it
-- is recorded under the directory that has taken that path.
abbrev name_c : List ℕ
name_c = 99 ∷ 99 ∷ 99 ∷ []

abbrev moves : ℕ → ℕ → ℕ → List ℕ → RawEvent
moves wd mask cookie name = record { wd = wd; mask = mask; cookie = cookie; name = some name }

abbrev misplaced : Table
unfolding program
misplaced = run begun (
    Action.arms (name_a ∷ []) 5
    ∷ Action.arms (name_b ∷ []) 5
    ∷ Action.arms (name_c ∷ name_a ∷ []) 5
    ∷ Action.applies (
        leaves_a
        ∷ moves 1 0x40000040 8 name_b
        ∷ moves 1 0x40000080 8 name_a
        ∷ moves 4 0x40000040 9 name_a
        ∷ moves 2 0x40000080 9 name_a
        ∷ [])
    ∷ [])

misplaced_by_wd :
    misplaced.by_wd
    ≡ (1, []) ∷ (3, name_a ∷ []) ∷ (4, name_c ∷ []) ∷ (32, name_a ∷ name_a ∷ []) ∷ []
unfolding program
misplaced_by_wd = refl
