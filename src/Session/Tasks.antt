-- ===== src/Session/Tasks.antt =====
-- crates/server/src/session.rs: `handle_request`, by the calls that it makes of the session. Its task
-- waits while the change is held, and then for a worker of its own, which runs the operation.
pub mod Calls
pub mod Kept
pub mod NoPanic
use jackalopefs.Common.{
  ℕ, Bool, true, false, Option, none, some, List, [], ◌∷◌, ◌==◌, ltb, if◌then◌else◌, ◌>>=◌,
  get_elem?, length, ◌&&◌, ◌||◌,
}
use jackalopefs.Session.State.{
  Exchange, GuardExchange, new_exchange, begin, abandon, fencing, drained, stopped, guard_drop,
}
use jackalopefs.Session.Steps.{System, Entry, Action, created, moved, step}

-- Where the task is: in the `select!` that drains the held change; in the one that joins the worker,
-- where a change can still be cancelled; past the cancel, to join the worker or to return; or it has
-- returned.
pub data Main : Type 0 where
  draining joining cancelled over : Main

pub data Worker : Type 0 where
  unspawned spawned running ended : Worker

pub record Task : Type 0 where
  pub main : Main
  pub worker : Worker

-- The session with the tasks of its requests; a request that was not decoded has none.
pub record Served : Type 0 where
  pub system : System
  pub tasks : ℕ → Task

unfoldable pub is_draining : Main → Bool
is_draining Main.draining = true
is_draining Main.joining = false
is_draining Main.cancelled = false
is_draining Main.over = false

unfoldable pub is_joining : Main → Bool
is_joining Main.joining = true
is_joining Main.draining = false
is_joining Main.cancelled = false
is_joining Main.over = false

unfoldable pub is_spawned : Worker → Bool
is_spawned Worker.spawned = true
is_spawned Worker.unspawned = false
is_spawned Worker.running = false
is_spawned Worker.ended = false

unfoldable pub is_running : Worker → Bool
is_running Worker.running = true
is_running Worker.unspawned = false
is_running Worker.spawned = false
is_running Worker.ended = false

-- The task of a request that was decoded behind so many changes.
unfoldable pub first_task : ℕ → Task
first_task n =
    if ltb 0 n
    then record { main = Main.draining; worker = Worker.unspawned }
    else record { main = Main.joining; worker = Worker.spawned }

-- `begin` answers the worker.
unfoldable pub begun : Task → Option GuardExchange → Task
begun k none = record k { worker = Worker.ended }
begun k (some g) = record k { worker = Worker.running }

-- `drained` answers the task: it goes on waiting, spawns the worker, or returns.
unfoldable pub after_drained : Task → Option Bool → Task
after_drained k none = k
after_drained k (some true) = record { main = Main.joining; worker = Worker.spawned }
after_drained k (some false) = record k { main = Main.over }

unfoldable pub after_abandon : Task → Task
unfolding is_draining
after_abandon k = record k { main = if is_draining k.main then Main.over else Main.cancelled }

-- The task may cancel a change while it drains or joins.
unfoldable pub may_cancel : Task → Exchange → Bool
unfolding is_draining is_joining
may_cancel k x = is_draining k.main || (is_joining k.main && x.ordered)

unfoldable pub put_task : ℕ → Task → (ℕ → Task) → ℕ → Task
put_task i k tasks j = if j == i then k else tasks j

-- One step; `none` if the task does not make it, or it panics.
unfoldable pub serve : Served → Action → Option Served
unfolding put_task first_task begun after_drained after_abandon may_cancel is_draining is_spawned
    is_running
serve d (Action.decodes epoch ordered) = do
  t ← step d.system (Action.decodes epoch ordered)
  some (record {
    system = t;
    tasks =
        put_task (length d.system.entries)
          (first_task (fencing d.system.session epoch (new_exchange ordered)).1) d.tasks;
  })
serve d (Action.begins i) = do
  e ← get_elem? d.system.entries i
  (s, x, guard) ← begin d.system.session e.epoch e.exchange
  if is_spawned (d.tasks i).worker
      then some (record {
        system = moved d.system i s (record e { exchange = x; guard = guard });
        tasks = put_task i (begun (d.tasks i) guard) d.tasks;
      })
      else none
serve d (Action.abandons i) = do
  e ← get_elem? d.system.entries i
  (s, x, verdict) ← abandon d.system.session e.epoch e.exchange
  if may_cancel (d.tasks i) e.exchange
      then some (record {
        system = moved d.system i s (record e { exchange = x });
        tasks = put_task i (after_abandon (d.tasks i)) d.tasks;
      })
      else none
serve d (Action.drains i) = do
  e ← get_elem? d.system.entries i
  (s, x, current) ← drained d.system.session e.epoch e.exchange
  if is_draining (d.tasks i).main
      then some (record {
        system = moved d.system i s (record e { exchange = x });
        tasks = put_task i (after_drained (d.tasks i) current) d.tasks;
      })
      else none
serve d (Action.stops i) = do
  e ← get_elem? d.system.entries i
  (s, x) ← stopped d.system.session e.exchange
  if is_draining (d.tasks i).main
      then some (record {
        system = moved d.system i s (record e { exchange = x });
        tasks = put_task i (record (d.tasks i) { main = Main.over }) d.tasks;
      })
      else none
serve d (Action.finishes i) = do
  e ← get_elem? d.system.entries i
  guard ← e.guard
  (s, x, woken) ← guard_drop d.system.session guard e.exchange
  if is_running (d.tasks i).worker
      then some (record {
        system = moved d.system i s (record e { exchange = x; guard = none });
        tasks = put_task i (record (d.tasks i) { worker = Worker.ended }) d.tasks;
      })
      else none
serve d Action.accepts = do t ← step d.system Action.accepts; some (record d { system = t })
serve d Action.undecodes = do t ← step d.system Action.undecodes; some (record d { system = t })
serve d Action.attaches = do t ← step d.system Action.attaches; some (record d { system = t })
serve d (Action.detaches now epoch) = do
  t ← step d.system (Action.detaches now epoch)
  some (record d { system = t })
serve d Action.resumes = do t ← step d.system Action.resumes; some (record d { system = t })

unfoldable pub serve_all : Served → List Action → Option Served
unfolding serve
serve_all d [] = some d
serve_all d (a ∷ acts) = do d' ← serve d a; serve_all d' acts

-- A session that was created and has served no request.
unfoldable pub unserved : ℕ → ℕ → Served
unserved id token = record {
  system = created id token;
  tasks = λ i. record { main = Main.over; worker = Worker.ended };
}
