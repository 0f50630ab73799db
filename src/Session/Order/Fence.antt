-- ===== src/Session/Order/Fence.antt =====
-- crates/server/src/session.rs: the moves of a change that its client gave up on while it ran, and of
-- the changes behind it.
pub mod Held
use jackalopefs.Common.{
  ℕ, ◌+◌, ◌<◌, ◌≡◌, ◌⊎◌, Bool, true, false, ◌&&◌, some, arith, get_elem?, count_if-pos,
}
use jackalopefs.Session.State.{
  SessionState, PhaseExchange, begin, abandon, drained, stopped, guard_drop, is_abandoned,
}
use jackalopefs.Session.Steps.{System, Entry}
use jackalopefs.Session.Steps.Cases.{Op, begins, abandons, drains, stops, finishes}
use jackalopefs.Session.Counts.{IsRequest, IsCounted, given_up, given_up_now, runs_older}

-- Held, or ended without having run.
abbrev pub is_behind : PhaseExchange → Bool
is_behind PhaseExchange.held = true
is_behind PhaseExchange.cancelled = true
is_behind PhaseExchange.superseded = true
is_behind PhaseExchange.dropped = true
is_behind _ = false

abbrev pub is_finished : PhaseExchange → Bool
is_finished PhaseExchange.finished = true
is_finished _ = false

abbrev pub behind : Entry → Bool
behind f = f.exchange.ordered && is_behind f.exchange.phase

abbrev pub over : Entry → Bool
over e = e.exchange.ordered && is_finished e.exchange.phase

-- The session still counts a change that it waits for.
unfoldable pub fences : SessionState → ℕ
fences s = s.attachment.running_older + s.attachment.abandoned

pub given_up-fences :
    (t : System) (i : ℕ) (e : Entry)
    → IsCounted t
    → get_elem? t.entries i ≡ some e
    → given_up e ≡ true
    → 0 < fences t.session
unfolding fences is_abandoned
given_up-fences t i e c at h = ground (
  arith,
  c.abandoned,
  c.running_older,
  count_if-pos (given_up_now t.session.attachment.epoch) t.entries i e at,
  count_if-pos (runs_older t.session.attachment.epoch) t.entries i e at,
)

-- A change given up on moves only by ending, and then stays as it is.
pub Op-given_up :
    (s : SessionState) (e : Entry) (s' : SessionState) (e' : Entry)
    → IsRequest s.attachment.epoch e
    → Op s e s' e'
    → (given_up e ≡ true) ⊎ (over e ≡ true)
    → (given_up e' ≡ true) ⊎ (over e' ≡ true)
unfolding begin abandon drained stopped guard_drop is_abandoned
Op-given_up s e s' e' q (begins x g h k) w = ground arith
Op-given_up s e s' e' q (abandons x v h k) w = ground arith
Op-given_up s e s' e' q (drains x on h k) w = ground arith
Op-given_up s e s' e' q (stops x h k) w = ground arith
Op-given_up s e s' e' q (finishes g x woken has h k) w = ground arith

pub Op-over :
    (s : SessionState) (e : Entry) (s' : SessionState) (e' : Entry)
    → IsRequest s.attachment.epoch e
    → Op s e s' e'
    → over e ≡ true
    → over e' ≡ true
unfolding begin abandon drained stopped guard_drop is_abandoned
Op-over s e s' e' q (begins x g h k) w = ground arith
Op-over s e s' e' q (abandons x v h k) w = ground arith
Op-over s e s' e' q (drains x on h k) w = ground arith
Op-over s e s' e' q (stops x h k) w = ground arith
Op-over s e s' e' q (finishes g x woken has h k) w = ground arith

-- A change behind stays behind while the session counts one that it waits for.
pub Op-behind :
    (s : SessionState) (f : Entry) (s' : SessionState) (f' : Entry)
    → IsRequest s.attachment.epoch f
    → Op s f s' f'
    → 0 < fences s
    → behind f ≡ true
    → behind f' ≡ true
unfolding begin abandon drained stopped guard_drop is_abandoned fences
Op-behind s f s' f' q (begins x g h k) n w = ground arith
Op-behind s f s' f' q (abandons x v h k) n w = ground arith
Op-behind s f s' f' q (drains x on h k) n w = ground arith
Op-behind s f s' f' q (stops x h k) n w = ground arith
Op-behind s f s' f' q (finishes g x woken has h k) n w = ground arith
