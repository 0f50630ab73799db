-- ===== src/Tests/Sessions.antt =====
-- crates/server/src/session.rs: one session that resumes, with changes of two connections.
use jackalopefs.Common.{
  ℕ, ◌≡◌, ◌≢◌, ◌⊎◌, refl, true, Option, none, some, List, [], ◌∷◌, length, get_elem?, arith,
}
use jackalopefs.Session.State.{
  PhaseExchange, drained, begin, abandon, fencing, guard_drop, reattach, hold, fence, new_exchange,
}
use jackalopefs.Session.Steps.{System, Entry, Action, created, decode, moved, step, run}
use jackalopefs.Session.Steps.Cases.{Op, finishes}
use jackalopefs.Session.Counts.{IsCounted, runs_older, given_up_now}
use jackalopefs.Session.Counts.Kept.{created-IsCounted, run-IsCounted}
use jackalopefs.Session.Order.OneConnection.{run-one_connection}
use jackalopefs.Session.Order.Fence.{behind}
use jackalopefs.Session.Order.Fence.Held.{run-given_up_holds}
use jackalopefs.Session.Progress.{run-drained_waits, Op-wakes, wakes}
use jackalopefs.Session.Tasks.{
  Served, serve, serve_all, unserved, first_task, begun, after_drained, after_abandon, may_cancel,
  is_draining, is_joining, is_spawned, is_running, put_task,
}
use jackalopefs.Session.Tasks.NoPanic.{serve-no_panic}

program : Unit {0}
unfolding created run step begin drained abandon fencing guard_drop reattach hold fence decode moved
    new_exchange serve serve_all unserved first_task begun after_drained after_abandon may_cancel
    is_draining is_joining is_spawned is_running put_task
program = tt

abbrev or_else : Option System → System → System
or_else none t = t
or_else (some u) t = u

-- A change begins, its client gives up on it, and another comes.
abbrev gives_up : List Action
gives_up =
    Action.attaches
    ∷ Action.accepts
    ∷ Action.accepts
    ∷ Action.accepts
    ∷ Action.decodes 1 true
    ∷ Action.begins 0
    ∷ Action.abandons 0
    ∷ []

abbrev served_acts : List Action
served_acts =
    Action.attaches
    ∷ Action.accepts
    ∷ Action.accepts
    ∷ Action.decodes 1 true
    ∷ Action.begins 0
    ∷ Action.abandons 0
    ∷ Action.decodes 1 true
    ∷ []

abbrev fresh : System
unfolding program
fresh = created 7 9

abbrev waiting : System
unfolding program
waiting = or_else (run fresh gives_up) fresh

abbrev behind_it : System
unfolding program
behind_it = or_else (step waiting (Action.decodes 1 true)) fresh

-- The first change ends, the second begins, and a third begins beside it.
abbrev both : List Action
both =
    Action.attaches
    ∷ Action.accepts
    ∷ Action.accepts
    ∷ Action.decodes 1 true
    ∷ Action.decodes 1 true
    ∷ Action.begins 0
    ∷ Action.begins 1
    ∷ []

abbrev two_running : System
unfolding program
two_running = or_else (run fresh both) fresh

abbrev entry_of : System → ℕ → Entry
entry_of t i = elim (get_elem? t.entries i) [
  | none ↦ record {
    epoch = 0;
    exchange = record { ordered = true; phase = PhaseExchange.held; holder = true };
    guard = none;
  }
  | some e ↦ e
]

waiting_phases :
    ((entry_of behind_it 0).exchange.phase ≡ PhaseExchange.abandoned)
    × ((entry_of behind_it 1).exchange.phase ≡ PhaseExchange.held)
unfolding program
waiting_phases = (refl, refl)

-- The session resumes while a change runs; the change that then comes waits for it.
abbrev resumed : System
unfolding program
resumed =
    or_else
      (run two_running
        (Action.resumes ∷ Action.accepts ∷ Action.decodes 2 true ∷ Action.finishes 0 ∷ []))
      fresh

resumed_counts :
    (resumed.session.attachment.running_older ≡ 1)
    × (resumed.session.attachment.running ≡ 0)
    × ((entry_of resumed 2).exchange.phase ≡ PhaseExchange.held)
unfolding program
resumed_counts = (refl, refl, refl)

run-one_connection_example : (entry_of two_running 0).epoch ≡ (entry_of two_running 1).epoch
unfolding program
run-one_connection_example =
    run-one_connection 7 9 both two_running 0 1 (entry_of two_running 0) (entry_of two_running 1)
      refl refl refl refl refl

run-given_up_holds_example :
    (f : Entry) × (get_elem? behind_it.entries (length waiting.entries) ≡ some f)
    × (behind f ≡ true)
unfolding program
run-given_up_holds_example =
    run-given_up_holds 7 9 gives_up [] waiting behind_it behind_it 0 (entry_of waiting 0)
      (entry_of behind_it 0) refl refl refl refl refl refl refl

abbrev nothing_served : Served
unfolding program
nothing_served = unserved 7 9

abbrev served_or_else : Option Served → Served → Served
served_or_else none d = d
served_or_else (some u) d = u

-- A change runs that its client gave up on, and the task of another drains.
abbrev served : Served
unfolding program
served = served_or_else (serve_all nothing_served served_acts) nothing_served

serve-no_panic_example : step served.system (Action.abandons 1) ≢ none
unfolding program
serve-no_panic_example =
    serve-no_panic 7 9 served_acts served (Action.abandons 1) refl
      (entry_of served.system 1, refl, refl)

run-drained_waits_example :
    (i : ℕ) × (e : Entry) × (get_elem? waiting.entries i ≡ some e)
    × ((runs_older waiting.session.attachment.epoch e ≡ true)
        ⊎ (given_up_now waiting.session.attachment.epoch e ≡ true))
unfolding program
run-drained_waits_example =
    run-drained_waits 7 9 gives_up waiting waiting.session 1 (entry_of behind_it 1).exchange
      (entry_of behind_it 1).exchange refl refl

run-IsCounted_example : IsCounted two_running
unfolding program
run-IsCounted_example = run-IsCounted (created 7 9) two_running both refl (created-IsCounted 7 9)

-- The abandoned change ends: the last that the held one waited for.
abbrev ended : System
unfolding program
ended = or_else (step behind_it (Action.finishes 0)) fresh

abbrev ends_first : Op behind_it.session (entry_of behind_it 0) ended.session (entry_of ended 0)
unfolding program
ends_first = finishes (record { epoch = 1 }) (entry_of ended 0).exchange true refl refl refl

Op-wakes_example : wakes ends_first ≡ true
unfolding program
Op-wakes_example =
    Op-wakes behind_it.session (entry_of behind_it 0) ended.session (entry_of ended 0) 1 ends_first
      (λ e. omega arith) refl
