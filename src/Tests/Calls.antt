-- ===== src/Tests/Calls.antt =====
-- crates/client/src/machine.rs: a call that is lost once and then answered.
use jackalopefs.Common.{
  ℕ, ◌+◌, ◌≤◌, ◌≡◌, refl, true, false, Option, none, some, List, [], ◌∷◌, length,
}
use jackalopefs.Call.Machine.{
  AttachedState, LossExchange, new_call, sendable, takes, sent, answered, lose, is_waiting,
  is_in_flight, lost_at, lost_in_flight, wait_newer,
}
use jackalopefs.Call.Attempts.{
  Call, Action, start, step, run, is_now, is_ended, may_carry, under_way,
}
use jackalopefs.Call.Attempts.Kept.{Rising, bit, run-sends_once}

program : Unit {0}
unfolding new_call sendable takes sent answered lose is_waiting is_in_flight lost_at lost_in_flight
    wait_newer start step run is_now is_ended may_carry under_way
program = tt

abbrev on : ℕ → AttachedState
on generation = record { generation = generation; cancels = 0; published = true }

abbrev twice : List Action
twice =
    Action.sends (on 3) 0
    ∷ Action.loses LossExchange.lost
    ∷ Action.sends (on 4) 0
    ∷ Action.answers false
    ∷ []

abbrev or_else : Option Call → Call → Call
or_else none c = c
or_else (some d) c = d

abbrev answered_twice : Call
unfolding program
answered_twice = or_else (run (start true true) twice) (start true true)

answered_twice_sends : answered_twice.sends ≡ 4 ∷ 3 ∷ []
unfolding program
answered_twice_sends = refl

-- On the connection that lost it, it is not sent again.
same_connection :
    run
      (start true true)
      (Action.sends (on 3) 0 ∷ Action.loses LossExchange.lost ∷ Action.sends (on 3) 0 ∷ [])
    ≡ none
unfolding program
same_connection = refl

run-sends_once_example :
    Rising answered_twice.sends
    × (answered_twice.state.attempt ≡ length answered_twice.sends)
    × (answered_twice.carried ≤ bit true + 1)
unfolding program
run-sends_once_example = run-sends_once true true twice answered_twice refl
