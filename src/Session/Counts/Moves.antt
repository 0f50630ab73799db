-- ===== src/Session/Counts/Moves.antt =====
-- crates/server/src/session.rs: each method that moves an exchange keeps the session's counts in step
-- with the exchange's phase.
use jackalopefs.Common.{arith}
use jackalopefs.Session.State.{
  SessionState, begin, abandon, drained, stopped, guard_drop, is_abandoned,
}
use jackalopefs.Session.Steps.{Entry}
use jackalopefs.Session.Steps.Cases.{Op, begins, abandons, drains, stops, finishes}
use jackalopefs.Session.Counts.{IsRequest, IsMove}

pub Op-IsMove :
    (s : SessionState) (e : Entry) (s' : SessionState) (e' : Entry)
    → IsRequest s.attachment.epoch e
    → Op s e s' e'
    → IsMove s e s' e'
unfolding begin abandon drained stopped guard_drop is_abandoned
Op-IsMove s e s' e' q (begins x g h k) = ground arith
Op-IsMove s e s' e' q (abandons x v h k) = ground arith
Op-IsMove s e s' e' q (drains x on h k) = ground arith
Op-IsMove s e s' e' q (stops x h k) = ground arith
Op-IsMove s e s' e' q (finishes g x woken has h k) = ground arith
