-- ===== src/Session/Progress.antt =====
-- crates/server/src/session.rs: a method panics only on a request in a phase that it does not expect,
-- and no held change waits for nothing.
use jackalopefs.Common.{
  ℕ, ◌≤◌, ◌<◌, ◌≡◌, ◌≢◌, ◌⊎◌, inl, inr, Bool, Bool-cases, true, false, none, some, List, arith,
  ◌==◌, ◌∙◌, get_elem?, count_if-pos, count_if-witness, All-get_elem?,
}
use jackalopefs.Session.State.{
  SessionState, Exchange, PhaseExchange, hold, let_go, detach_at, begin, abandon, drained, stopped,
  guard_drop, is_abandoned, fence,
}
use jackalopefs.Session.Steps.{System, Entry, Action, created, decode, step, run}
use jackalopefs.Session.Steps.Cases.{Op, begins, abandons, drains, stops, finishes}
use jackalopefs.Session.Counts.{
  IsRequest, IsCounted, is_active, holds, runs_now, runs_older, given_up_now,
}
use jackalopefs.Session.Counts.Kept.{created-IsCounted, run-IsCounted}

-- The request at `i` is one that `P` holds of.
abbrev pub At : System → ℕ → (Exchange → Type 0) → Type 0
At t i P = (e : Entry) × (get_elem? t.entries i ≡ some e) × P e.exchange

abbrev pub MayBegin : Exchange → Type 0
MayBegin x =
    (x.phase ≡ PhaseExchange.ready) ⊎ ((x.ordered ≡ true) × (x.phase ≡ PhaseExchange.cancelled))

abbrev pub MayAbandon : Exchange → Type 0
MayAbandon x =
    (x.ordered ≡ true)
    × (x.phase ≢ PhaseExchange.cancelled)
    × (x.phase ≢ PhaseExchange.abandoned)
    × (x.phase ≢ PhaseExchange.dropped)

-- What the method of an action asks of its request: one that begins is ready, or was given up on
-- meanwhile; a change is given up on once; only a held change drains or is stopped; only what has begun
-- ends; and what goes away has come.
abbrev pub IsCall : System → Action → Type 0
IsCall t Action.accepts = Unit {0}
IsCall t Action.undecodes = 0 < t.accepted
IsCall t Action.attaches = Unit {0}
IsCall t (Action.detaches now epoch) = 0 < t.conns
IsCall t Action.resumes = Unit {0}
IsCall t (Action.decodes epoch ordered) = (epoch ≤ t.session.attachment.epoch) × (0 < t.accepted)
IsCall t (Action.begins i) = At t i MayBegin
IsCall t (Action.abandons i) = At t i MayAbandon
IsCall t (Action.drains i) = At t i (λ x. x.phase ≡ PhaseExchange.held)
IsCall t (Action.stops i) = At t i (λ x. x.phase ≡ PhaseExchange.held)
IsCall t (Action.finishes i) = At t i (λ x. is_active x.phase ≡ true)

module _ (t : System) (c : IsCounted t) where
  entry-IsRequest :
      (i : ℕ) (e : Entry) → get_elem? t.entries i ≡ some e → IsRequest t.session.attachment.epoch e
  entry-IsRequest i e at =
      All-get_elem? (IsRequest t.session.attachment.epoch) t.entries i at c.requests

  finish_ok : (i : ℕ) → At t i (λ x. is_active x.phase ≡ true) → step t (Action.finishes i) ≢ none
  unfolding step guard_drop is_abandoned
  finish_ok i (e, at, h) bad = ground (
    arith,
    entry-IsRequest i e at,
    c.running,
    c.running_older,
    c.abandoned,
    c.holders,
    count_if-pos holds t.entries i e at,
    count_if-pos (runs_now t.session.attachment.epoch) t.entries i e at,
    count_if-pos (runs_older t.session.attachment.epoch) t.entries i e at,
    count_if-pos (given_up_now t.session.attachment.epoch) t.entries i e at,
  )

  step_ok : (a : Action) → IsCall t a → step t a ≢ none
  unfolding step hold let_go detach_at decode begin abandon drained stopped
  step_ok Action.accepts h bad = cc
  step_ok Action.undecodes h bad = ground (arith, c.holders)
  step_ok Action.attaches h bad = cc
  step_ok (Action.detaches now epoch) h bad = ground (arith, c.holders)
  step_ok Action.resumes h bad = cc
  step_ok (Action.decodes epoch ordered) h bad = ground arith
  step_ok (Action.begins i) (e, at, h) bad =
      ground (arith, entry-IsRequest i e at, c.holders, count_if-pos holds t.entries i e at)
  step_ok (Action.abandons i) (e, at, h) bad =
      ground (arith, entry-IsRequest i e at, c.holders, count_if-pos holds t.entries i e at)
  step_ok (Action.drains i) (e, at, h) bad =
      ground (arith, entry-IsRequest i e at, c.holders, count_if-pos holds t.entries i e at)
  step_ok (Action.stops i) (e, at, h) bad =
      ground (arith, entry-IsRequest i e at, c.holders, count_if-pos holds t.entries i e at)
  step_ok (Action.finishes i) h bad = finish_ok i h bad

-- In every state that a session reaches, a method that is called so does not panic.
pub run-no_panic :
    (id token : ℕ) (acts : List Action) (t : System) (a : Action)
    → run (created id token) acts ≡ some t
    → IsCall t a
    → step t a ≢ none
run-no_panic id token acts t a h =
    step_ok t (run-IsCounted (created id token) t acts h (created-IsCounted id token)) a

-- Whether the step of a request notifies `drained`.
abbrev pub wakes : {s s' : SessionState} {e e' : Entry} → Op s e s' e' → Bool
wakes (begins x g h k) = false
wakes (abandons x v h k) = false
wakes (drains x on h k) = false
wakes (stops x h k) = false
wakes (finishes g x woken has h k) = woken

-- A step of a request after which the changes of the connection at `epoch` wait for nothing, though
-- they waited before it, notifies `drained`: no wake is lost.
pub Op-wakes :
    (s : SessionState) (e : Entry) (s' : SessionState) (e' : Entry) (epoch : ℕ)
    → (op : Op s e s' e') → fence s.attachment epoch ≢ 0
    → fence s'.attachment epoch ≡ 0
    → wakes op ≡ true
unfolding begin abandon drained stopped guard_drop is_abandoned fence
Op-wakes s e s' e' epoch (begins x g h k) n z = ground arith
Op-wakes s e s' e' epoch (abandons x v h k) n z = ground arith
Op-wakes s e s' e' epoch (drains x on h k) n z = ground arith
Op-wakes s e s' e' epoch (stops x h k) n z = ground arith
Op-wakes s e s' e' epoch (finishes g x woken has h k) n z = ground arith

drained_counts :
    (a : SessionState) (s : SessionState) (epoch : ℕ) (x y : Exchange)
    → drained a epoch x ≡ some (s, y, none)
    → (a.attachment.running_older ≢ 0) ⊎ (a.attachment.abandoned ≢ 0)
unfolding drained
drained_counts a s epoch x y d = elim (Bool-cases (a.attachment.running_older == 0)) [
  | inl e ↦ inr (λ z. ground arith)
  | inr e ↦ inl (λ z. ground arith)
]

-- In every state that a session reaches, a change that `drained` leaves held waits for a change that
-- still runs there: one of an earlier connection, or one of the current connection given up on.
pub run-drained_waits :
    (id token : ℕ) (acts : List Action) (t : System) (s : SessionState) (epoch : ℕ) (x y : Exchange)
    → run (created id token) acts ≡ some t
    → drained t.session epoch x ≡ some (s, y, none)
    → (i : ℕ) × (e : Entry) × (get_elem? t.entries i ≡ some e)
      × ((runs_older t.session.attachment.epoch e ≡ true)
          ⊎ (given_up_now t.session.attachment.epoch e ≡ true))
run-drained_waits id token acts t s epoch x y h d =
    let c = run-IsCounted (created id token) t acts h (created-IsCounted id token) in
    let now = t.session.attachment.epoch in
    elim (drained_counts t.session s epoch x y d) [
      | inl n ↦
          let (i, e, at, hit) =
            count_if-witness (runs_older now) t.entries (λ z. n (c.running_older ∙ z)) in
          (i, e, at, inl hit)
      | inr n ↦
          let (i, e, at, hit) =
            count_if-witness (given_up_now now) t.entries (λ z. n (c.abandoned ∙ z)) in
          (i, e, at, inr hit)
    ]
