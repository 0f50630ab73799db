-- ===== src/Tests/Events.antt =====
-- crates/server/src/watch.rs: a window in which two sessions change one file.
use jackalopefs.Common.{ℕ, ◌≡◌, ◌⊎◌, refl, none, some, List, [], ◌∷◌, Option, length}
use jackalopefs.Proto.Path.{join, from_names, to_bytes, split_last}
use jackalopefs.Proto.Owners.Acl.{same_bytes}
use jackalopefs.Nodes.Names.{same_names}
use jackalopefs.Events.Window.{
  EventItem, same_item, is_overflow, is_seen, new_pending, fold, fold_all, is_empty, flush,
  is_origin, items_for_session, is_no_item, for_session,
}
use jackalopefs.Events.Origins.{
  ChangeLog, put_record, drop_record, evict, record_change, record_entry, take_origin, origin_key,
  take_item_origin, fold_events, intersects, items_for, parent_of, dirs_named,
}
use jackalopefs.Events.Told.{first_origin, is_by_another, has_overflow, told, IsOver, told_lem}

program : Unit {0}
unfolding join from_names to_bytes split_last same_bytes same_names same_item is_overflow is_seen
    new_pending fold fold_all is_empty flush is_origin items_for_session is_no_item for_session
    put_record drop_record evict record_change record_entry take_origin origin_key take_item_origin
    fold_events intersects items_for parent_of dirs_named first_origin is_by_another has_overflow
    told
program = tt

abbrev file_a : EventItem
file_a = EventItem.entry [] (97 ∷ [])

abbrev file_b : EventItem
file_b = EventItem.entry [] (98 ∷ [])

abbrev window : List (EventItem × Option ℕ)
window = (file_a, some 1) ∷ (file_b, none) ∷ (file_a, some 2) ∷ []

-- Session 2 hears of the change of session 1, which hears of no change of session 2.
told_second : told 2 window ≡ file_a ∷ file_b ∷ []
unfolding program
told_second = refl

told_first : told 1 window ≡ file_b ∷ []
unfolding program
told_first = refl

abbrev no_changes : ChangeLog
no_changes = record { by_path = λ k. none; order = [] }

-- An inotify event takes the record of a change a millisecond before it, and leaves none.
fold_events_own :
    (fold_events 1001000000 new_pending
      (record_entry 1000000000 no_changes [] (97 ∷ []) 7)
      (items_for [] 0x100 (97 ∷ []))).0.items
    ≡ (file_a, some 7) ∷ []
unfolding program
fold_events_own = refl

told_lem_example :
    (told 1 window ≡ EventItem.overflow ∷ []) × IsOver (length window) window
    ⊎ is_seen file_a (told 1 window) ≡ is_by_another 1 (first_origin file_a window)
told_lem_example = told_lem window 1 file_a
