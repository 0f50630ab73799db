-- ===== src/Call/Machine.antt =====
-- crates/client/src/machine.rs: what a connection carries, and a call's sends, give-up and resend.
-- crates/client/src/client.rs: the errors, and which requests are safe to send again. `none` is a
-- panic. A message of an error is its bytes.
use jackalopefs.Common.{
  ℕ, suc, ◌+◌, ◌-◌, Bool, true, false, ◌&&◌, not, Option, none, some, List, ◌==◌, ltb, leb,
  if◌then◌else◌,
}
use Prim.Native.Nat.{bit_and, bit_or}
use jackalopefs.Proto.Message.{Request, Response}

pub data Error : Type 0 where
  timeout interrupted disconnected stale closed unmapped : Error
  remote : ℕ → Error
  protocol : List ℕ → Error

-- The numbers of `libc` on Linux.
abbrev etimedout : ℕ
etimedout = 110

abbrev eintr : ℕ
eintr = 4

abbrev eio : ℕ
eio = 5

abbrev estale : ℕ
estale = 116

abbrev enotconn : ℕ
enotconn = 107

abbrev einval : ℕ
einval = 22

-- `Error::errno`; a negative number's pattern is above 4096.
unfoldable pub errno : Error → ℕ
errno Error.timeout = etimedout
errno Error.interrupted = eintr
errno Error.disconnected = eio
errno Error.stale = estale
errno (Error.remote e) = if ltb 0 e && ltb e 4096 then e else eio
errno (Error.protocol why) = eio
errno Error.closed = enotconn
errno Error.unmapped = einval

-- The result of a call.
pub data Outcome : Type 0 where
  ok : Response → Outcome
  err : Error → Outcome

-- `cancels` is the count of pending cancels.
pub record AttachedState : Type 0 where
  pub generation : ℕ
  pub cancels : ℕ
  pub published : Bool

-- `AttachedState::new`.
unfoldable pub new_attached : ℕ → AttachedState
new_attached generation = record { generation = generation; cancels = 0; published = false }

-- `AttachedState::publish`.
unfoldable pub publish : AttachedState → AttachedState
publish a = record a { published = true }

-- `CancelPending::count`, and its drop; `none` is a count taken below zero.
unfoldable pub count_cancel : AttachedState → AttachedState
count_cancel a = record a { cancels = suc a.cancels }

unfoldable pub drop_cancel : AttachedState → Option AttachedState
drop_cancel a = if ltb 0 a.cancels then some (record a { cancels = a.cancels - 1 }) else none

pub data EndCall : Type 0 where
  replied with_errno given_up failed : EndCall

pub data StatusCall : Type 0 where
  waiting : StatusCall
  in_flight : ℕ → StatusCall
  ended : EndCall → StatusCall

pub data Sendable : Type 0 where
  unsendable after_cancels right_now : Sendable

pub data LossExchange : Type 0 where
  not_sent lost : LossExchange

pub record CallState : Type 0 where
  pub changes : Bool
  pub resendable : Bool
  pub lost_once : Bool
  pub min_generation : ℕ
  pub attempt : ℕ
  pub status : StatusCall

-- `CallState::new`.
unfoldable pub new_call : Bool → Bool → CallState
new_call changes resendable = record {
  changes = changes;
  resendable = resendable;
  lost_once = false;
  min_generation = 0;
  attempt = 0;
  status = StatusCall.waiting;
}

unfoldable pub is_waiting : StatusCall → Bool
is_waiting StatusCall.waiting = true
is_waiting _ = false

unfoldable pub is_in_flight : StatusCall → Bool
is_in_flight (StatusCall.in_flight generation) = true
is_in_flight _ = false

-- `CallState::takes`.
unfoldable pub takes : CallState → AttachedState → Bool
unfolding is_waiting
takes c a = is_waiting c.status && a.published && leb c.min_generation a.generation

-- `CallState::sendable`.
unfoldable pub sendable : CallState → AttachedState → ℕ → Sendable
unfolding takes
sendable c a pending =
    if not (takes c a)
    then Sendable.unsendable
    else if c.changes && not (pending == 0)
    then Sendable.after_cancels
    else Sendable.right_now

-- `CallState::sent`; it asserts that the call waits.
unfoldable pub sent : CallState → ℕ → Option CallState
unfolding is_waiting
sent c generation =
    if is_waiting c.status
    then some (record c { attempt = suc c.attempt; status = StatusCall.in_flight generation })
    else none

-- `CallState::answered`.
unfoldable pub answered : CallState → Bool → CallState
answered c errno = record c {
  status = StatusCall.ended (if errno then EndCall.with_errno else EndCall.replied);
}

-- The call waits for a newer connection than that of the generation.
unfoldable pub wait_newer : CallState → ℕ → CallState
wait_newer c generation = record c { min_generation = generation + 1; status = StatusCall.waiting }

-- The `match` of `lost`, in flight on a generation: the call, and whether it goes on.
unfoldable pub lost_in_flight : CallState → ℕ → LossExchange → CallState × Option Error
unfolding wait_newer
lost_in_flight c generation LossExchange.not_sent = (wait_newer c generation, none)
lost_in_flight c generation LossExchange.lost =
    if c.resendable && not c.lost_once
    then (wait_newer (record c { lost_once = true }) generation, none)
    else (record c { status = StatusCall.ended EndCall.failed }, some Error.disconnected)

unfoldable pub lost_at : StatusCall → CallState → LossExchange → Option (CallState × Option Error)
unfolding lost_in_flight
lost_at (StatusCall.in_flight generation) c how = some (lost_in_flight c generation how)
lost_at StatusCall.waiting c how = none
lost_at (StatusCall.ended e) c how = none

-- `CallState::lost`.
unfoldable pub lose : CallState → LossExchange → Option (CallState × Option Error)
unfolding lost_at
lose c how = lost_at c.status c how

-- `counts_give_up`.
unfoldable pub counts_give_up : Bool → Bool → Bool → Bool
counts_give_up flying written changes = flying && written && changes

-- `CallState::gave_up`.
unfoldable pub gave_up : CallState → Bool → CallState × Bool
unfolding counts_give_up is_in_flight
gave_up c written = (
  record c { status = StatusCall.ended EndCall.given_up },
  counts_give_up (is_in_flight c.status) written c.changes,
)

-- `CallState::failed`.
unfoldable pub fail : CallState → CallState
fail c = record c { status = StatusCall.ended EndCall.failed }

pub data SettleOpen : Type 0 where
  keep owe nothing : SettleOpen

-- `open_settled`.
unfoldable pub open_settled : Outcome → SettleOpen
open_settled (ok (Response.opened attr)) = SettleOpen.keep
open_settled (ok _) = SettleOpen.owe
open_settled (err Error.timeout) = SettleOpen.owe
open_settled (err Error.interrupted) = SettleOpen.owe
open_settled (err Error.disconnected) = SettleOpen.owe
open_settled (err (Error.protocol why)) = SettleOpen.owe
open_settled (err _) = SettleOpen.nothing

-- `release_owed`.
unfoldable pub release_owed : Outcome → Bool
release_owed (err Error.timeout) = true
release_owed (err Error.disconnected) = true
release_owed _ = false

-- Flags of `open(2)` on Linux.
abbrev pub o_excl : ℕ
o_excl = 0o200

abbrev pub o_trunc : ℕ
o_trunc = 0o1000

-- `retry_safe`; `appends` is whether the first handle's record says so, none where there is no record.
unfoldable pub retry_safe : Request → Option Bool → Bool
retry_safe (Request.write fh offset bytes) none = false
retry_safe (Request.write fh offset bytes) (some appends) = not appends
retry_safe (Request.open_file fh path flags) appends = bit_and flags o_trunc == 0
retry_safe (Request.create fh parent name mode flags) appends =
    bit_and flags (bit_or o_excl o_trunc) == 0
retry_safe (Request.setxattr path name value flags) appends = flags == 0
retry_safe (Request.mknod parent name mode rdev) appends = false
retry_safe (Request.mkdir parent name mode) appends = false
retry_safe (Request.unlink parent name) appends = false
retry_safe (Request.rmdir parent name) appends = false
retry_safe (Request.symlink parent name target) appends = false
retry_safe (Request.rename parent name newparent newname flags) appends = false
retry_safe (Request.link path newparent newname) appends = false
retry_safe (Request.removexattr path name) appends = false
retry_safe _ appends = true
