-- ===== src/Tests/Tables.antt =====
-- crates/server/src/handles.rs: two sessions' tables on one pool.
use jackalopefs.Common.{
  ◌+◌, ℕ, ◌≡◌, ◌≢◌, ◌⊎◌, ◌<◌, ◌≤◌, ◌*◌, ◌^◌, refl, Option, none, some, List, [], ◌∷◌, arith, suc,
  ◌==◌, if◌then◌else◌,
}
use Prim.Native.Nat.{max}
use jackalopefs.Handles.Shares.{per_session_lem}
use jackalopefs.Perf.Doubling.{IsHighest, doubling_due, climb, climbs}
use jackalopefs.Handles.Table.{
  pool_capacity, per_session, share_max, reserved_fds, max_connections, max_detached_sessions,
  Handle, HandlePool, Handles, is_dir, failed, duplicate, done, slot, refused, pool_full, get, new,
  reserve, insert_slot, report, remove, take_slot, give, drop_slot, settle, inserted, removed,
}
use jackalopefs.Handles.World.{World, Action, start, step, run, after_reserve, IsTable, IsPooled}
use jackalopefs.Handles.Pool.Steps.{start-IsPooled, run-IsPooled}
use jackalopefs.Handles.Faults.{run-no_fault}
use jackalopefs.Handles.Opens.{
  reserve_room, get-insert_slot, insert_slot_raced, get-remove, report_lem,
}

program : Unit {0}
unfolding is_dir new reserve insert_slot report remove take_slot give drop_slot settle inserted
    removed get after_reserve start step run doubling_due climb climbs
program = tt

abbrev two_tables : World
unfolding program
two_tables = start 3 (1 ∷ 2 ∷ [])

abbrev a_file : Handle
a_file = Handle.file 40 ((b'a' ∷ []) ∷ []) none

abbrev a_dir : Handle
a_dir = Handle.dir 41 none

-- Two opens of the first session and one of the second take every slot; a fourth finds none.
abbrev opens : List Action
opens =
    Action.reserves 0 5
    ∷ Action.reserves 0 6
    ∷ Action.reserves 1 5
    ∷ Action.reserves 1 6
    ∷ Action.inserts 2 a_file
    ∷ Action.inserts 1 a_dir
    ∷ []

abbrev or_else : Option World → World → World
or_else none w = w
or_else (some u) w = u

abbrev opened : World
unfolding program
opened = or_else (run two_tables opens) two_tables

opened_counts : (opened.pool.used ≡ 3) × (opened.slots ≡ (1, 5) ∷ []) × ((new 1).files ≡ 0)
unfolding program
opened_counts = (refl, refl, refl)

run-IsPooled_example : IsPooled opened
unfolding program
run-IsPooled_example = run-IsPooled two_tables opened opens refl (start-IsPooled 3 (1 ∷ 2 ∷ []))

run-no_fault_example : step opened (Action.removes 1 5) ≢ none
unfolding program
run-no_fault_example =
    run-no_fault two_tables opened opens (Action.removes 1 5) refl (start-IsPooled 3 (1 ∷ 2 ∷ []))
      (omega arith) (new 2, refl)

-- A table that holds one file.
abbrev one_file : Handles
one_file = record {
  table = (5, a_file) ∷ [];
  share = 1;
  reported = 1;
  files = 1;
  dirs = 0;
  notice = none;
}

-- The same with a directory, under another id.
abbrev two_handles : Handles
two_handles = record {
  table = (5, a_file) ∷ (6, a_dir) ∷ [];
  share = 1;
  reported = 2;
  files = 1;
  dirs = 1;
  notice = some (record { held = 2; share = 1 });
}

abbrev busy : HandlePool
busy = record { capacity = 3; used = 2 }

-- Two opens of the first session and one of the second, of which two have inserted, leave no slot.
reserve_room_example :
    ((3 ≡ opened.pool.capacity)
      × (reserve opened.pool (new 1) 9 ≡ (opened.pool, refused pool_full)))
    ⊎ ((3 < opened.pool.capacity)
        × (reserve opened.pool (new 1) 9 ≡ (record opened.pool { used = suc 3 }, slot)))
unfolding program
reserve_room_example =
    reserve_room two_tables opened opens (new 1) 9 refl (start-IsPooled 3 (1 ∷ 2 ∷ [])) refl

get-insert_slot_example : get two_handles 5 ≡ (if 5 == 6 then some a_dir else get one_file 5)
unfolding program
get-insert_slot_example =
    get-insert_slot busy busy one_file two_handles 6 5 a_dir (done (some 2)) refl refl

abbrev idle : HandlePool
idle = record { capacity = 3; used = 0 }

abbrev raced : Handles
raced = record {
  table = (5, a_file) ∷ [];
  share = 2;
  reported = 0;
  files = 1;
  dirs = 0;
  notice = none;
}

insert_slot_raced_example :
    (insert_slot busy raced 5 a_dir ≡ some (record idle { used = 1 }, raced, failed duplicate))
    × (get raced 5 ≡ some a_file)
unfolding program
insert_slot_raced_example =
    insert_slot_raced idle (record idle { used = 1 }) busy busy (new 2) raced 5 a_file a_dir
      (done none) refl refl refl

two_handles-IsTable : IsTable two_handles
unfolding is_dir
two_handles-IsTable = record { ids = (omega arith, tt); files = refl; dirs = refl }

abbrev one_left : Handles
one_left = record {
  table = (5, a_file) ∷ [];
  share = 1;
  reported = 2;
  files = 1;
  dirs = 0;
  notice = some (record { held = 2; share = 1 });
}

get-remove_example :
    (some a_dir ≡ some a_dir)
    × (suc 1 ≡ busy.used)
    × (get one_left 6 ≡ none)
    × ((other : ℕ) → other ≢ 6 → get one_left other ≡ get two_handles other)
unfolding program
get-remove_example =
    get-remove busy (record busy { used = 1 }) two_handles one_left 6 a_dir (some a_dir)
      two_handles-IsTable refl refl

report_lem_example :
    ((report one_file 2 ≡ some (one_file, none))
      × ((2 < max one_file.share 1)
          ⊎ (2 < one_file.reported * 2)
          ⊎ (2 ^ 64 ≤ one_file.reported * 2)))
    ⊎ ((r : ℕ) × (report one_file 2
          ≡ some (
            record one_file {
              reported = r;
              notice = some (record { held = 2; share = one_file.share });
            },
            some 2,
          ))
        × (max one_file.share 1 ≤ 2)
        × (one_file.reported * 2 ≤ 2)
        × IsHighest (max one_file.share 1) 2 r)
report_lem_example = report_lem one_file 2 (omega arith)

per_session_lem_example :
    (65536 ≤ 2 * pool_capacity 65536)
    × (65536 ≤ pool_capacity 65536 + reserved_fds)
    × ((pool_capacity 65536 + reserved_fds ≤ 65536) ⊎ (2 * pool_capacity 65536 ≤ 65536 + 1))
    × (per_session 65536 * (max_connections + max_detached_sessions) ≤ pool_capacity 65536)
    × (per_session 65536 ≤ share_max)
    × ((pool_capacity 65536 < suc (per_session 65536) * (max_connections + max_detached_sessions))
        ⊎ (per_session 65536 ≡ share_max))
per_session_lem_example = per_session_lem 65536
