-- ===== src/Sessions/Steps.antt =====
-- crates/server/src/session.rs: what happens to the table of sessions, one event after another.
use jackalopefs.Common.{
  ℕ, Option, none, some, List, [], ◌∷◌, ◌==◌, if◌then◌else◌, ◌>>=◌, lookup, insert, erase,
}
use jackalopefs.Session.State.{SessionState, Attachment, hold, let_go}
use jackalopefs.Sessions.Table.{Sessions, has, create, resume, forget, attach, detach, reap}

-- The table, with the sessions that were forgotten.
pub record World : Type 0 where
  pub table : Sessions
  pub forgotten : List ℕ

-- A request or a connection takes hold of a session or lets it go, or changes the counts of its
-- attachment; the last reference to a session goes.
pub data Action : Type 0 where
  creates : (token : ℕ) → Action
  resumes : (id token : ℕ) → Action
  forgets : ℕ → Action
  attaches : ℕ → Action
  holds : ℕ → Action
  lets_go : ℕ → Action
  counts : ℕ → Attachment → Action
  detaches : (now id epoch : ℕ) → Action
  reaps : (now grace : ℕ) → Action
  frees : ℕ → Action

unfoldable pub start : World
start = record { table = record { heap = []; map = []; dropped = []; next_id = 0 }; forgotten = [] }

unfoldable pub put : Sessions → ℕ → SessionState → Sessions
put t id s = record t { heap = insert id s t.heap }

-- One event; `none` is one that does not happen: something is done to a session that is gone, a
-- `resume` that finds none, and a free of a session that the table or a holder holds.
unfoldable pub step : World → Action → Option World
unfolding has put
step w (Action.creates token) = some (record w { table = (create w.table token).0 })
step w (Action.resumes id token) = do
  (t, epoch) ← resume w.table id token
  some (record w { table = t })
step w (Action.forgets id) =
    some (record { table = forget w.table id; forgotten = id ∷ w.forgotten })
step w (Action.attaches id) = some (record w { table = attach w.table id })
step w (Action.holds id) = do
  s ← lookup id w.table.heap
  some (record w { table = put w.table id (hold s) })
step w (Action.lets_go id) = do
  s ← lookup id w.table.heap
  s' ← let_go s
  some (record w { table = put w.table id s' })
step w (Action.counts id a) = do
  s ← lookup id w.table.heap
  some (record w { table = put w.table id (record s { attachment = a }) })
step w (Action.detaches now id epoch) = some (record w { table = detach now w.table id epoch })
step w (Action.reaps now grace) = some (record w { table = (reap now w.table grace).0 })
step w (Action.frees id) = do
  s ← lookup id w.table.heap
  if has id w.table.map
      then none
      else if s.holders == 0
      then some (record w { table = record w.table { heap = erase id w.table.heap } })
      else none

unfoldable pub run : World → List Action → Option World
run w [] = some w
run w (a ∷ acts) = do w' ← step w a; run w' acts
