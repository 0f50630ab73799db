-- ===== src/Call/Attempts.antt =====
-- crates/client/src/machine.rs: the attempts of one call, as crates/client/src/client.rs
-- (`Caller::attempt`) drives them: it sends where the call may be sent, and ends with the call.
pub mod Kept
use jackalopefs.Common.{
  ap, ℕ, suc, ◌+◌, ◌≤◌, ◌<◌, ◌≡◌, refl, sym, subst, Bool, true, false, not, ◌&&◌, Bool-cases,
  Option, none, some, some-injective, ◌⊎◌, inl, inr, List, [], ◌∷◌, arith, if◌then◌else◌, ◌>>=◌,
  length, >>=-eq-some,
}
use jackalopefs.Call.Machine.{
  AttachedState, CallState, StatusCall, Sendable, LossExchange, EndCall, Error, new_call, sendable,
  takes, sent, answered, lose, gave_up, fail, is_waiting, is_in_flight, lost_at, lost_in_flight,
  wait_newer,
}

-- A call with its record: the generations that it was sent on, latest first, and how many of its
-- exchanges may have carried the request to the server.
pub record Call : Type 0 where
  pub state : CallState
  pub sends : List ℕ
  pub carried : ℕ

pub data Action : Type 0 where
  sends : AttachedState → ℕ → Action
  loses : LossExchange → Action
  answers : Bool → Action
  gives_up : Bool → Action
  fails : Action

unfoldable pub start : Bool → Bool → Call
start changes resendable = record { state = new_call changes resendable; sends = []; carried = 0 }

unfoldable pub is_now : Sendable → Bool
is_now Sendable.right_now = true
is_now _ = false

unfoldable pub is_ended : StatusCall → Bool
is_ended (StatusCall.ended e) = true
is_ended _ = false

unfoldable pub may_carry : LossExchange → ℕ
may_carry LossExchange.not_sent = 0
may_carry LossExchange.lost = 1

-- An exchange under way may have carried the request.
unfoldable pub under_way : CallState → ℕ
under_way c = if is_in_flight c.status then 1 else 0

-- One step; `none` where the code does not take it, or panics.
unfoldable pub step : Call → Action → Option Call
unfolding is_now is_ended may_carry under_way
step c (Action.sends a pending) =
    if is_now (sendable c.state a pending)
    then (do
      s ← sent c.state a.generation
      some (record c { state = s; sends = a.generation ∷ c.sends }))
    else none
step c (Action.loses how) = do
  (s, e) ← lose c.state how
  some (record c { state = s; carried = c.carried + may_carry how })
step c (Action.answers errno) =
    if is_in_flight c.state.status
    then some (record c { state = answered c.state errno; carried = c.carried + 1 })
    else none
step c (Action.gives_up written) =
    if is_ended c.state.status
    then none
    else some (record c {
      state = (gave_up c.state written).0;
      carried = c.carried + (if written then under_way c.state else 0);
    })
step c Action.fails =
    if is_ended c.state.status
    then none
    else some (record c { state = fail c.state; carried = c.carried + under_way c.state })

unfoldable pub run : Call → List Action → Option Call
run c [] = some c
run c (a ∷ acts) = do c' ← step c a; run c' acts
