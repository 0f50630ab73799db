-- ===== src/Tests/Resumes.antt =====
-- crates/server/src/session.rs: sessions lost, dropped and resumed, and a table that is full.
use jackalopefs.Common.{
  ℕ, zero, suc, ◌+◌, ◌<◌, ◌≤◌, ◌≡◌, inr, refl, true, false, none, some, List, [], ◌∷◌, Option,
  lookup, length, arith,
}
use jackalopefs.Session.State.{SessionState, hold, let_go, reattach, detach_at}
use jackalopefs.Sessions.Table.{
  Sessions, has, without_id, insert_id, retire, retire_all, detached_at, detached_in, insert_by_at,
  sort_by_at, take_ids, surplus, new_session, create, find, resume, forget, attach, detach,
  expired_in, reap, max_detached_sessions,
}
use jackalopefs.Sessions.Steps.{World, Action, start, put, step, run}
use jackalopefs.Sessions.Resumes.{run-resumable}
use jackalopefs.Sessions.Room.{create_lem}

program : Unit {0}
unfolding hold let_go reattach detach_at has without_id insert_id retire retire_all detached_at
    detached_in insert_by_at sort_by_at take_ids surplus new_session create find resume forget
    attach detach expired_in reap start put step run
program = tt

abbrev or_else : Option World → World → World
or_else none w = w
or_else (some u) w = u

-- Session 1 loses its connection while a request of it runs, and is reaped; session 2 is reaped with
-- nothing under way.
abbrev acts : List Action
acts =
    Action.creates 7
    ∷ Action.creates 8
    ∷ Action.holds 1
    ∷ Action.detaches 100 1 1
    ∷ Action.detaches 100 2 1
    ∷ Action.reaps 200 60
    ∷ []

abbrev after_acts : World
unfolding program
after_acts = or_else (run start acts) start

abbrev first : SessionState
first = record {
  id = 1;
  resume_token = 7;
  attachment = record {
    epoch = 1;
    detached_at = some 100;
    remote = none;
    running = 0;
    abandoned = 0;
    running_older = 0;
  };
  holders = 1;
}

dropped_both : after_acts.table.dropped ≡ 1 ∷ 2 ∷ []
unfolding program
dropped_both = refl

resume_idle : resume after_acts.table 2 8 ≡ none
unfolding program
resume_idle = refl

resume_wrong_token : resume after_acts.table 1 8 ≡ none
unfolding program
resume_wrong_token = refl

run-resumable_example :
    (u : Sessions) × (resume after_acts.table 1 7 ≡ some (u, 2))
    × (has 1 u.map ≡ true)
    × (lookup 1 u.heap ≡ some (reattach first))
unfolding program
run-resumable_example =
    run-resumable after_acts acts 1 first refl refl refl (inr (λ e. omega arith))

abbrev resumed : Sessions
resumed = record after_acts.table {
  heap = (1, reattach first) ∷ (2, record first { id = 2; resume_token = 8; holders = 0 }) ∷ [];
  map = 1 ∷ [];
  dropped = 2 ∷ [];
}

-- As many sessions, each detached before the ones of a higher id.
abbrev all_detached : ℕ → Sessions
unfolding program
all_detached zero = record { heap = []; map = []; dropped = []; next_id = 0 }
all_detached (suc n) = let t = all_detached n in detach (100 + suc n) (create t 7).0 (suc n) 1

abbrev full : Sessions
unfolding program
full = all_detached 64

create_lem_example :
    let (u, id) = create full 9 in
    (has id u.map ≡ true)
    × (length (detached_in u.heap u.map) < max_detached_sessions)
    × ((j k b : ℕ)
        → has j full.map ≡ true
        → has j u.map ≡ false
        → (a : ℕ) × (detached_at full.heap j ≡ some a)
          × (has k u.map ≡ true → detached_at u.heap k ≡ some b → a ≤ b))
create_lem_example = create_lem full 9

create_full : surplus full ≡ 1 ∷ []
unfolding program
create_full = refl
