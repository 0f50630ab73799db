-- ===== src/Session/Steps.antt =====
-- crates/server/src/session.rs: what happens to one session, one step after another. A step is one
-- critical section of the session's lock, on behalf of a request (`handle_request`), a connection
-- (`handle_connection`, `AttachmentConn`) or the table (`Sessions::resume`). The requests are kept in
-- the order in which they were decoded, each with the epoch of its connection.
pub mod Cases
use jackalopefs.Common.{
  ℕ, suc, Bool, Option, none, some, List, [], ◌∷◌, ◌++◌, leb, if◌then◌else◌, ◌>>=◌, get_elem?, set,
  checked_pred,
}
use jackalopefs.Session.State.{
  SessionState, Exchange, GuardExchange, hold, let_go, new_exchange, begin, abandon, fencing,
  drained, stopped, guard_drop, reattach, detach_at,
}

-- A request decoded on the connection of `epoch`; it has a guard from when it begins until it ends.
pub record Entry : Type 0 where
  pub epoch : ℕ
  pub exchange : Exchange
  pub guard : Option GuardExchange

-- `accepted` counts the streams accepted and not yet decoded, `conns` the connections that hold the
-- session.
pub record System : Type 0 where
  pub session : SessionState
  pub accepted : ℕ
  pub conns : ℕ
  pub entries : List Entry

pub data Action : Type 0 where
  accepts undecodes attaches resumes : Action
  detaches : ℕ → ℕ → Action
  decodes : ℕ → Bool → Action
  begins abandons drains stops finishes : ℕ → Action

-- `create`, before its connection takes the session up.
unfoldable pub created : ℕ → ℕ → System
created id token = record {
  session = record {
    id = id;
    resume_token = token;
    attachment = record {
      epoch = 1;
      detached_at = none;
      remote = none;
      running = 0;
      abandoned = 0;
      running_older = 0;
    };
    holders = 0;
  };
  accepted = 0;
  conns = 0;
  entries = [];
}

-- The entry at `i` moves.
unfoldable pub moved : System → ℕ → SessionState → Entry → System
moved t i s e = record t { session = s; entries = set t.entries i e }

-- `handle_request` begins: `Exchange::new` and `fencing`. No connection is of a later epoch than the
-- session's.
unfoldable pub decode : System → ℕ → Bool → Option System
decode t epoch ordered =
    if leb epoch t.session.attachment.epoch
    then (do
      n ← checked_pred t.accepted
      some (record t {
        accepted = n;
        entries =
            t.entries
            ++ (record {
              epoch = epoch;
              exchange = (fencing t.session epoch (new_exchange ordered)).0;
              guard = none;
            })
              ∷ [];
      }))
    else none

-- One step; `none` if it panics, or there is nothing that it could be of.
unfoldable pub step : System → Action → Option System
unfolding hold let_go moved decode
step t Action.accepts = some (record t { session = hold t.session; accepted = suc t.accepted })
step t Action.undecodes = do
  n ← checked_pred t.accepted
  s ← let_go t.session
  some (record t { session = s; accepted = n })
step t Action.attaches = some (record t { session = hold t.session; conns = suc t.conns })
step t (Action.detaches now epoch) = do
  n ← checked_pred t.conns
  s ← let_go (detach_at now epoch t.session)
  some (record t { session = s; conns = n })
step t Action.resumes = some (record t { session = reattach t.session })
step t (Action.decodes epoch ordered) = decode t epoch ordered
step t (Action.begins i) = do
  e ← get_elem? t.entries i
  (s, x, guard) ← begin t.session e.epoch e.exchange
  some (moved t i s (record e { exchange = x; guard = guard }))
step t (Action.abandons i) = do
  e ← get_elem? t.entries i
  (s, x, _) ← abandon t.session e.epoch e.exchange
  some (moved t i s (record e { exchange = x }))
step t (Action.drains i) = do
  e ← get_elem? t.entries i
  (s, x, _) ← drained t.session e.epoch e.exchange
  some (moved t i s (record e { exchange = x }))
step t (Action.stops i) = do
  e ← get_elem? t.entries i
  (s, x) ← stopped t.session e.exchange
  some (moved t i s (record e { exchange = x }))
step t (Action.finishes i) = do
  e ← get_elem? t.entries i
  guard ← e.guard
  (s, x, _) ← guard_drop t.session guard e.exchange
  some (moved t i s (record e { exchange = x; guard = none }))

-- A history of steps.
unfoldable pub run : System → List Action → Option System
run t [] = some t
run t (a ∷ acts) = do t' ← step t a; run t' acts
