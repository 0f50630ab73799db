-- ===== src/Call/Attempts/Kept.antt =====
-- crates/client/src/machine.rs: on which connections a call is sent, and how often it may have been
-- carried.
use jackalopefs.Common.{
  ap, ℕ, suc, ◌+◌, ◌≤◌, ◌<◌, ◌≡◌, refl, sym, subst, Bool, true, false, not, ◌&&◌, Bool-cases,
  Option, some, some-injective, ◌⊎◌, inl, inr, List, [], ◌∷◌, arith, if◌then◌else◌, length,
  >>=-eq-some,
}
use jackalopefs.Call.Machine.{
  AttachedState, CallState, StatusCall, LossExchange, EndCall, Error, new_call, sendable, takes,
  sent, answered, lose, gave_up, fail, is_waiting, is_in_flight, lost_at, lost_in_flight,
  wait_newer,
}
use jackalopefs.Call.Attempts.{
  Call, Action, start, step, run, is_now, is_ended, may_carry, under_way,
}

-- Each generation is above those after it, and all are below `n`.
abbrev pub Below : ℕ → List ℕ → Type 0
Below n [] = Unit {0}
Below n (g ∷ gs) = (g < n) × Below g gs

Below-mono : (m n : ℕ) (gs : List ℕ) → m ≤ n → Below m gs → Below n gs
Below-mono m n [] h b = tt
Below-mono m n (g ∷ gs) h b = (omega arith, b.1)

-- The generations of the sends rise.
abbrev pub Rising : List ℕ → Type 0
Rising [] = Unit {0}
Rising (g ∷ gs) = Below g gs

Below-Rising : (n : ℕ) (gs : List ℕ) → Below n gs → Rising gs
Below-Rising n [] b = tt
Below-Rising n (g ∷ gs) b = b.1

abbrev pub bit : Bool → ℕ
bit true = 1
bit false = 0

-- Of a call in a status: each later send passes all before it, and what may have carried the request
-- and was lost is counted by `lost_once`.
abbrev Live : StatusCall → ℕ → Bool → List ℕ → ℕ → Type 0
Live (StatusCall.in_flight generation) min once gs carried =
    Below (generation + 1) gs × (carried ≤ bit once)
Live StatusCall.waiting min once gs carried = Below min gs × (carried ≤ bit once)
Live (StatusCall.ended e) min once gs carried = Rising gs × (carried ≤ bit once + 1)

record IsCall (resendable : Bool) (c : Call) : Type 0 where
  same : c.state.resendable ≡ resendable
  attempts : c.state.attempt ≡ length c.sends
  once : bit c.state.lost_once ≤ bit resendable
  live : Live c.state.status c.state.min_generation c.state.lost_once c.sends c.carried

Live-open :
    (st : StatusCall) (min : ℕ) (once : Bool) (gs : List ℕ) (carried : ℕ)
    → is_ended st ≡ false
    → Live st min once gs carried
    → Rising gs × (carried ≤ bit once)
unfolding is_ended
Live-open StatusCall.waiting min once gs carried e l = (Below-Rising min gs l.0, l.1)
Live-open (StatusCall.in_flight g) min once gs carried e l = (Below-Rising (g + 1) gs l.0, l.1)
Live-open (StatusCall.ended x) min once gs carried e l = cc

Live-over :
    (st : StatusCall) (min : ℕ) (once : Bool) (gs : List ℕ) (carried : ℕ)
    → Live st min once gs carried
    → Rising gs × (carried ≤ bit once + 1)
Live-over StatusCall.waiting min once gs carried l = (Below-Rising min gs l.0, omega (arith, l.1))
Live-over (StatusCall.in_flight g) min once gs carried l =
    (Below-Rising (g + 1) gs l.0, omega (arith, l.1))
Live-over (StatusCall.ended x) min once gs carried l = l

-- A call that is not over ends, after one more exchange that may have carried it.
ends-IsCall :
    (r : Bool) (c : Call) (x : EndCall) (n : ℕ)
    → is_ended c.state.status ≡ false
    → n ≤ 1
    → IsCall r c
    → IsCall r (record c {
      state = record c.state { status = StatusCall.ended x };
      carried = c.carried + n;
    })
ends-IsCall r c x n e h k = record {
  same = k.same;
  attempts = k.attempts;
  once = k.once;
  live = (now.0, omega (arith, now.1));
}
  where
    now : Rising c.sends × (c.carried ≤ bit c.state.lost_once)
    now =
        Live-open c.state.status c.state.min_generation c.state.lost_once c.sends c.carried e k.live

sends-cases :
    (c c' : Call) (a : AttachedState) (pending : ℕ)
    → step c (Action.sends a pending) ≡ some c'
    → (c.state.status ≡ StatusCall.waiting)
      × (c.state.min_generation ≤ a.generation)
      × (record c {
        state = record c.state {
          attempt = suc c.state.attempt;
          status = StatusCall.in_flight a.generation;
        };
        sends = a.generation ∷ c.sends;
      }
          ≡ c')
unfolding step is_now sendable takes sent is_waiting
sends-cases c c' a pending e = ground arith

sends-IsCall :
    (r : Bool) (c : Call) (generation : ℕ)
    → c.state.status ≡ StatusCall.waiting
    → c.state.min_generation ≤ generation
    → IsCall r c
    → IsCall r (record c {
      state = record c.state {
        attempt = suc c.state.attempt;
        status = StatusCall.in_flight generation;
      };
      sends = generation ∷ c.sends;
    })
sends-IsCall r c generation q h k = record {
  same = k.same;
  attempts = ap suc k.attempts;
  once = k.once;
  live = ((omega arith, Below-mono c.state.min_generation generation c.sends h l.0), l.1);
}
  where
    l : Live StatusCall.waiting c.state.min_generation c.state.lost_once c.sends c.carried
    l = subst (λ st. Live st c.state.min_generation c.state.lost_once c.sends c.carried) q k.live

ends_as : Call → EndCall → ℕ → Call
ends_as c x n = record c {
  state = record c.state { status = StatusCall.ended x };
  carried = c.carried + n;
}

waits_newer : Call → ℕ → Bool → ℕ → Call
waits_newer c generation once n = record c {
  state = record c.state {
    lost_once = once;
    min_generation = generation + 1;
    status = StatusCall.waiting;
  };
  carried = c.carried + n;
}

waits-IsCall :
    (r : Bool) (c : Call) (generation : ℕ) (once : Bool) (n : ℕ)
    → c.state.status ≡ StatusCall.in_flight generation
    → bit c.state.lost_once + n ≤ bit once
    → bit once ≤ bit c.state.resendable
    → IsCall r c
    → IsCall r (waits_newer c generation once n)
unfolding waits_newer
waits-IsCall r c generation once n q h u k = record {
  same = k.same;
  attempts = k.attempts;
  once = subst (λ b. bit once ≤ bit b) k.same u;
  live = (l.0, omega (arith, l.1));
}
  where
    l :
        Live
          (StatusCall.in_flight generation)
          c.state.min_generation
          c.state.lost_once
          c.sends
          c.carried
    l = subst (λ st. Live st c.state.min_generation c.state.lost_once c.sends c.carried) q k.live

-- A step that ends the call.
IsEnd : Call → Call → Type 0
IsEnd c c' =
    (is_ended c.state.status ≡ false) × (x : EndCall) × (n : ℕ) × (n ≤ 1) × (ends_as c x n ≡ c')

IsWait : Call → Call → Type 0
IsWait c c' =
    (generation : ℕ) × (once : Bool) × (n : ℕ) × (c.state.status ≡ StatusCall.in_flight generation)
    × (bit c.state.lost_once + n ≤ bit once)
    × (bit once ≤ bit c.state.resendable)
    × (waits_newer c generation once n ≡ c')

end-IsCall : (r : Bool) (c c' : Call) → IsEnd c c' → IsCall r c → IsCall r c'
unfolding IsEnd ends_as
end-IsCall r c c' (o, x, n, h, p) k = subst (IsCall r) p (ends-IsCall r c x n o h k)

wait-IsCall : (r : Bool) (c c' : Call) → IsWait c c' → IsCall r c → IsCall r c'
unfolding IsWait
wait-IsCall r c c' (g, once, n, q, h, u, p) k =
    subst (IsCall r) p (waits-IsCall r c g once n q h u k)

lost-cases :
    (c : Call) (d : CallState) (o : Option Error) (c' : Call) (how : LossExchange) (st : StatusCall)
    → c.state.status ≡ st
    → lost_at st c.state how ≡ some (d, o)
    → record c { state = d; carried = c.carried + may_carry how } ≡ c'
    → bit c.state.lost_once ≤ bit c.state.resendable
    → IsEnd c c' ⊎ IsWait c c'
unfolding lost_at lost_in_flight wait_newer may_carry is_ended IsEnd ends_as IsWait waits_newer
lost-cases c d o c' how StatusCall.waiting q e p u = cc
lost-cases c d o c' how (StatusCall.ended x) q e p u = cc
lost-cases c d o c' LossExchange.not_sent (StatusCall.in_flight g) q e p u =
    inr (g, c.state.lost_once, 0, q, omega arith, u, ground arith)
lost-cases c d o c' LossExchange.lost (StatusCall.in_flight g) q e p u =
    elim (Bool-cases (c.state.resendable && not c.state.lost_once)) [
      | inl h ↦ inr (g, true, 1, q, ground arith, ground arith, ground arith)
      | inr h ↦ inl (ground arith, EndCall.failed, 1, omega arith, ground arith)
    ]

loses-cases :
    (c c' : Call) (how : LossExchange)
    → step c (Action.loses how) ≡ some c'
    → bit c.state.lost_once ≤ bit c.state.resendable
    → IsEnd c c' ⊎ IsWait c c'
unfolding step lose
loses-cases c c' how e u =
    let (x, f, g) = >>=-eq-some (lost_at c.state.status c.state how) _ e in
    lost-cases c x.0 x.1 c' how c.state.status refl f (some-injective _ _ g) u

answers-IsEnd : (c c' : Call) (errno : Bool) → step c (Action.answers errno) ≡ some c' → IsEnd c c'
unfolding step answered is_in_flight is_ended IsEnd ends_as
answers-IsEnd c c' errno e = (
  ground arith,
  if errno then EndCall.with_errno else EndCall.replied,
  1,
  omega arith,
  ground arith,
)

gives_up-IsEnd :
    (c c' : Call) (written : Bool) → step c (Action.gives_up written) ≡ some c' → IsEnd c c'
unfolding step gave_up is_in_flight is_ended under_way IsEnd ends_as
gives_up-IsEnd c c' written e = (
  ground arith,
  EndCall.given_up,
  if written then under_way c.state else 0,
  ground arith,
  ground arith,
)

fails-IsEnd : (c c' : Call) → step c Action.fails ≡ some c' → IsEnd c c'
unfolding step fail is_in_flight is_ended under_way IsEnd ends_as
fails-IsEnd c c' e = (ground arith, EndCall.failed, under_way c.state, ground arith, ground arith)

step-IsCall : (r : Bool) (c c' : Call) (a : Action) → step c a ≡ some c' → IsCall r c → IsCall r c'
step-IsCall r c c' (Action.sends a pending) e k =
    let (q, h, p) = sends-cases c c' a pending e in
    subst (IsCall r) p (sends-IsCall r c a.generation q h k)
step-IsCall r c c' (Action.loses how) e k =
    elim (loses-cases c c' how e (subst (λ b. bit c.state.lost_once ≤ bit b) (sym k.same) k.once)) [
      | inl x ↦ end-IsCall r c c' x k
      | inr x ↦ wait-IsCall r c c' x k
    ]
step-IsCall r c c' (Action.answers errno) e k = end-IsCall r c c' (answers-IsEnd c c' errno e) k
step-IsCall r c c' (Action.gives_up written) e k =
    end-IsCall r c c' (gives_up-IsEnd c c' written e) k
step-IsCall r c c' Action.fails e k = end-IsCall r c c' (fails-IsEnd c c' e) k

run-IsCall :
    (r : Bool) (c c' : Call) (acts : List Action) → run c acts ≡ some c' → IsCall r c → IsCall r c'
unfolding run
run-IsCall r c c' [] e k = subst (IsCall r) (some-injective c c' e) k
run-IsCall r c c' (a ∷ acts) e k =
    let (d, f, g) = >>=-eq-some (step c a) (λ x. run x acts) e in
    run-IsCall r d c' acts g (step-IsCall r c d a f k)

-- After any steps of a call, on any connections, replies, losses, waits given up and failures: it was
-- sent only on connections of ever newer generations, its attempts are its sends, at most two of its
-- exchanges may have carried it to the server, and only one may of a call that is not resendable.
pub run-sends_once :
    (changes resendable : Bool) (acts : List Action) (c : Call)
    → run (start changes resendable) acts ≡ some c
    → Rising c.sends × (c.state.attempt ≡ length c.sends) × (c.carried ≤ bit resendable + 1)
unfolding start new_call
run-sends_once changes resendable acts c e = (now.0, k.attempts, omega (arith, now.1, k.once))
  where
    k : IsCall resendable c
    k =
        run-IsCall resendable (start changes resendable) c acts e
          (record { same = refl; attempts = refl; once = ground arith; live = (tt, omega arith) })

    now : Rising c.sends × (c.carried ≤ bit c.state.lost_once + 1)
    now = Live-over c.state.status c.state.min_generation c.state.lost_once c.sends c.carried k.live
