-- ===== src/Session/State.antt =====
-- crates/server/src/session.rs: `SessionState`, its `Attachment`, the `Exchange`s on it, and the
-- methods that move an exchange through its phases. A method runs under the attachment's lock, so it
-- is one step: it returns the new states of the session and of the exchange. `none` is a panic (an
-- assertion, an `unreachable!`, or a counter taken below zero).
use jackalopefs.Common.{
  ℕ, suc, ◌+◌, Bool, true, false, not, Option, none, some, ◌==◌, ltb, if◌then◌else◌, ◌>>=◌,
  checked_pred,
}

pub data PhaseExchange : Type 0 where
  held ready cancelled superseded dropped running abandoned finished : PhaseExchange

-- `holder` is whether the exchange still has its hold on the session.
pub record Exchange : Type 0 where
  pub ordered : Bool
  pub phase : PhaseExchange
  pub holder : Bool

-- An instant is a number. `remote`, the client's address, is a number too.
pub record Attachment : Type 0 where
  pub epoch : ℕ
  pub detached_at : Option ℕ
  pub remote : Option ℕ
  pub running : ℕ
  pub abandoned : ℕ
  pub running_older : ℕ

-- The session's handles are modelled apart, as `Handles`.
pub record SessionState : Type 0 where
  pub id : ℕ
  pub resume_token : ℕ
  pub attachment : Attachment
  pub holders : ℕ

pub record GuardExchange : Type 0 where
  pub epoch : ℕ

pub data Verdict : Type 0 where
  unrun fenced done outdated : Verdict

-- `SessionState::hold`.
unfoldable pub hold : SessionState → SessionState
hold s = record s { holders = suc s.holders }

-- The drop of a `Holder`.
unfoldable pub let_go : SessionState → Option SessionState
let_go s = do h ← checked_pred s.holders; some (record s { holders = h })

-- `Exchange::new`, with the hold that its stream has had since it was accepted.
unfoldable pub new_exchange : Bool → Exchange
new_exchange ordered = record { ordered = ordered; phase = PhaseExchange.ready; holder = true }

-- `Exchange::end`.
unfoldable pub end_exchange :
    SessionState → Exchange → PhaseExchange → Option (SessionState × Exchange)
unfolding let_go
end_exchange s x to =
    if x.holder
    then (do s' ← let_go s; some (s', record x { phase = to; holder = false }))
    else some (s, record x { phase = to })

-- What `begin` finds of a change: `some true` if the client gave it up.
unfoldable pub cancelled_already : PhaseExchange → Option Bool
cancelled_already PhaseExchange.ready = some false
cancelled_already PhaseExchange.cancelled = some true
cancelled_already _ = none

unfoldable pub is_ready : PhaseExchange → Bool
is_ready PhaseExchange.ready = true
is_ready _ = false

begin_change :
    SessionState → ℕ → Exchange → Bool → Option (SessionState × Exchange × Option GuardExchange)
unfolding end_exchange
begin_change s epoch x true = some (s, x, none)
begin_change s epoch x false =
    if s.attachment.epoch == epoch
    then some (
      record s { attachment = record s.attachment { running = suc s.attachment.running } },
      record x { phase = PhaseExchange.running },
      some (record { epoch = epoch }),
    )
    else (do (s', x') ← end_exchange s x PhaseExchange.superseded; some (s', x', none))

-- `SessionState::begin`.
unfoldable pub begin :
    SessionState → ℕ → Exchange → Option (SessionState × Exchange × Option GuardExchange)
unfolding cancelled_already is_ready begin_change
begin s epoch x =
    if not x.ordered
    then (if is_ready x.phase
        then some (s, record x { phase = PhaseExchange.running }, some (record { epoch = epoch }))
        else none)
    else (do given_up ← cancelled_already x.phase; begin_change s epoch x given_up)

-- The `match` of `abandon`, on the phase of the change.
abandon_phase :
    PhaseExchange → SessionState → ℕ → Exchange → Option (SessionState × Exchange × Verdict)
unfolding end_exchange
abandon_phase PhaseExchange.held s epoch x = do
  (s', x') ← end_exchange s x PhaseExchange.cancelled
  some (s', x', unrun)
abandon_phase PhaseExchange.ready s epoch x = do
  (s', x') ← end_exchange s x PhaseExchange.cancelled
  some (s', x', unrun)
abandon_phase PhaseExchange.superseded s epoch x = some (s, x, outdated)
abandon_phase PhaseExchange.running s epoch x =
    let a = s.attachment in
    some (
      record s {
        attachment = record a {
          abandoned = if a.epoch == epoch then suc a.abandoned else a.abandoned;
        };
      },
      record x { phase = PhaseExchange.abandoned },
      fenced,
    )
abandon_phase PhaseExchange.cancelled s epoch x = none
abandon_phase PhaseExchange.abandoned s epoch x = none
abandon_phase PhaseExchange.dropped s epoch x = none
abandon_phase PhaseExchange.finished s epoch x = some (s, x, done)

-- `SessionState::abandon`.
unfoldable pub abandon : SessionState → ℕ → Exchange → Option (SessionState × Exchange × Verdict)
unfolding abandon_phase
abandon s epoch x = if x.ordered then abandon_phase x.phase s epoch x else none

-- The changes that a change of the connection at `epoch` waits for.
unfoldable pub fence : Attachment → ℕ → ℕ
fence a epoch = if a.epoch == epoch then a.running_older + a.abandoned else 0

-- `SessionState::fencing`.
unfoldable pub fencing : SessionState → ℕ → Exchange → Exchange × ℕ
unfolding fence
fencing s epoch x =
    if not x.ordered
    then (x, 0)
    else (let n = fence s.attachment epoch in
        (if ltb 0 n then record x { phase = PhaseExchange.held } else x, n))

unfoldable pub is_held : PhaseExchange → Bool
is_held PhaseExchange.held = true
is_held _ = false

-- `SessionState::drained`: whether the held change goes on, if that is settled.
unfoldable pub drained :
    SessionState → ℕ → Exchange → Option (SessionState × Exchange × Option Bool)
unfolding is_held end_exchange
drained s epoch x =
    if not (is_held x.phase)
    then none
    else if not (s.attachment.epoch == epoch)
    then (do (s', x') ← end_exchange s x PhaseExchange.superseded; some (s', x', some false))
    else if s.attachment.running_older + s.attachment.abandoned == 0
    then some (s, record x { phase = PhaseExchange.ready }, some true)
    else some (s, x, none)

-- `SessionState::stopped`.
unfoldable pub stopped : SessionState → Exchange → Option (SessionState × Exchange)
unfolding is_held end_exchange
stopped s x = if is_held x.phase then end_exchange s x PhaseExchange.dropped else none

unfoldable pub is_abandoned : PhaseExchange → Bool
is_abandoned PhaseExchange.abandoned = true
is_abandoned _ = false

-- The counts after a change of the connection at `epoch` ends, and whether the held are woken.
unfoldable pub finish_counts : Attachment → ℕ → Bool → Option (Attachment × Bool)
finish_counts a epoch given_up =
    if a.epoch == epoch
    then (do
      r ← checked_pred a.running
      if given_up
          then (do
            n ← checked_pred a.abandoned
            some (record a { running = r; abandoned = n }, n == 0))
          else some (record a { running = r }, false))
    else (do r ← checked_pred a.running_older; some (record a { running_older = r }, r == 0))

-- The drop of a `GuardExchange`, and whether it notifies `drained`.
unfoldable pub guard_drop :
    SessionState → GuardExchange → Exchange → Option (SessionState × Exchange × Bool)
unfolding end_exchange is_abandoned finish_counts
guard_drop s g x = do
  (s', x') ← end_exchange s x PhaseExchange.finished
  if not x.ordered then some (s', x', false) else (do
    (a, woken) ← finish_counts s'.attachment g.epoch (is_abandoned x.phase)
    some (record s' { attachment = a }, x', woken))

-- What `Sessions::resume` does to the attachment of the session that it found. It then notifies
-- `drained`.
unfoldable pub reattach : SessionState → SessionState
reattach s =
    let a = s.attachment in
    record s {
      attachment = record a {
        epoch = suc a.epoch;
        detached_at = none;
        running_older = a.running_older + a.running;
        running = 0;
        abandoned = 0;
      };
    }

-- What `Sessions::detach` does to the attachment of the session that it found, at an instant.
unfoldable pub detach_at : ℕ → ℕ → SessionState → SessionState
detach_at now epoch s =
    if s.attachment.epoch == epoch
    then record s { attachment = record s.attachment { detached_at = some now } }
    else s
