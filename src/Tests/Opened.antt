-- ===== src/Tests/Opened.antt =====
-- crates/client/src/handles.rs and crates/client/src/machine.rs: three handles in a new session.
use jackalopefs.Common.{ℕ, ◌≡◌, ◌⊎◌, refl, true, false, none, some, List, [], ◌∷◌, Option}
use jackalopefs.Proto.Types.{Attr, FileKind}
use jackalopefs.Call.Machine.{ok}
use jackalopefs.Proto.Message.{Response}
use jackalopefs.Releases.{HandleKind, release_request, owe_release, ordered_release}
use jackalopefs.Nodes.Table.{same_identity, describes}
use jackalopefs.Opened.Table.{
  HandleRec, reopen_request, is_dead, mark_dead, alloc, count_up, count_down, get, insert_handle,
  remove_handle, is_dead_rec, release_begins, live_in, live, kill_recs, owe_killed, kill_all,
  keeps_alive, apply_reopen,
}
use jackalopefs.Opened.Round.{
  new_round, send, take_reopen, ended, is_none, publishable, World, Action, start, step, run,
}
use jackalopefs.Opened.Covered.{is_in, run-publishable}

program : Unit {0}
unfolding release_request owe_release ordered_release same_identity describes reopen_request is_dead
    mark_dead alloc count_up count_down get insert_handle remove_handle is_dead_rec release_begins
    live_in live kill_recs owe_killed kill_all keeps_alive apply_reopen new_round send take_reopen
    ended is_none publishable start step run
program = tt

abbrev or_else : Option World → World → World
or_else none w = w
or_else (some u) w = u

abbrev of_file : ℕ → Attr
of_file ino = record {
  ino = ino;
  size = 0;
  blocks = 0;
  atime = record { sec = 0; nsec = 0 };
  mtime = record { sec = 0; nsec = 0 };
  ctime = record { sec = 0; nsec = 0 };
  kind = FileKind.regular;
  perm = 0o644;
  nlink = 1;
  uid = 0;
  gid = 0;
  rdev = 0;
  blksize = 4096;
  xattr_names = none;
  identity = record { handle_type = 1; handle = ino ∷ [] };
  foreign = false;
}

abbrev handle : ℕ → HandleRec
handle ino = record {
  nodeid = ino;
  key = record { ino = ino; identity = record { handle_type = 1; handle = ino ∷ [] } };
  path = (97 ∷ []) ∷ [];
  flags = 2;
  kind = HandleKind.file;
  opener = none;
  dead = false;
}

-- Handles 1, 2 and 3 are held as the round begins: the first is found again, the second's path leads to
-- another file, and the third is released meanwhile; a fourth is opened.
abbrev acts : List Action
acts =
    Action.opens 1 (handle 11)
    ∷ Action.opens 2 (handle 12)
    ∷ Action.opens 3 (handle 13)
    ∷ Action.begins
    ∷ Action.sends 1
    ∷ Action.sends 3
    ∷ Action.releases 3
    ∷ Action.opens 4 (handle 14)
    ∷ Action.ends 1 (ok (Response.opened (of_file 11)))
    ∷ Action.ends 2 (ok (Response.opened (of_file 13)))
    ∷ Action.ends 3 (ok (Response.opened (of_file 13)))
    ∷ []

abbrev after_acts : World
unfolding program
after_acts = or_else (run start acts) start

reopened_first : after_acts.round.reopened ≡ 1 ∷ []
unfolding program
reopened_first = refl

dead_second : is_dead after_acts.table.recs 1 ≡ true
unfolding program
dead_second = refl

held_three : after_acts.table.map ≡ (1, 0) ∷ (2, 1) ∷ (4, 3) ∷ []
unfolding program
held_three = refl

run-publishable_example :
    (is_dead after_acts.table.recs 1 ≡ true)
    ⊎ (is_in 2 after_acts.round.reopened ≡ true)
    ⊎ (is_in 2 after_acts.opened ≡ true)
unfolding program
run-publishable_example = run-publishable after_acts acts 2 1 refl refl refl
