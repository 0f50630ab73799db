-- ===== src/Session/Tasks/NoPanic.antt =====
-- crates/server/src/session.rs: the calls that `handle_request` makes panic nowhere.
use jackalopefs.Common.{ℕ, ◌≤◌, ◌<◌, ◌≡◌, ◌≢◌, Bool, true, none, some, List, arith, get_elem?}
use jackalopefs.Session.State.{Exchange}
use jackalopefs.Session.Steps.{Entry, Action, created, step}
use jackalopefs.Session.Progress.{IsCall, MayAbandon, run-no_panic}
use jackalopefs.Session.Tasks.{
  Task, Served, may_cancel, is_draining, is_spawned, is_running, serve_all, unserved,
}
use jackalopefs.Session.Tasks.Calls.{Agrees}
use jackalopefs.Session.Tasks.Kept.{AllAgree, serve_all_lem}

-- The request at `i` was decoded, and its task is at a place.
abbrev pub IsAt : Served → ℕ → (Exchange → Task → Bool) → Type 0
IsAt d i place =
    (e : Entry) × (get_elem? d.system.entries i ≡ some e) × (place e.exchange (d.tasks i) ≡ true)

-- Where the code makes the call of an action: the worker that was spawned begins, and it ends what it
-- runs; the task looks whether the held change goes on, or is stopped, while it drains, and gives a
-- change up while it drains or joins. Any stream is decoded that was accepted, on a connection that
-- attached, and what goes away has come.
abbrev pub IsMade : Served → Action → Type 0
IsMade d Action.accepts = Unit {0}
IsMade d Action.undecodes = 0 < d.system.accepted
IsMade d Action.attaches = Unit {0}
IsMade d (Action.detaches now epoch) = 0 < d.system.conns
IsMade d Action.resumes = Unit {0}
IsMade d (Action.decodes epoch ordered) =
    (epoch ≤ d.system.session.attachment.epoch) × (0 < d.system.accepted)
IsMade d (Action.begins i) = IsAt d i (λ x k. is_spawned k.worker)
IsMade d (Action.abandons i) = IsAt d i (λ x k. may_cancel k x)
IsMade d (Action.drains i) = IsAt d i (λ x k. is_draining k.main)
IsMade d (Action.stops i) = IsAt d i (λ x k. is_draining k.main)
IsMade d (Action.finishes i) = IsAt d i (λ x k. is_running k.worker)

may_abandon :
    (e : Entry) (k : Task) → may_cancel k e.exchange ≡ true → Agrees e k → MayAbandon e.exchange
unfolding may_cancel
may_abandon e k h c = (
  ground (arith, c.draining),
  λ p. ground (arith, c.draining, c.joining),
  λ p. ground (arith, c.draining, c.joining),
  λ p. ground (arith, c.draining, c.joining),
)

made-IsCall : (d : Served) (a : Action) → AllAgree d → IsMade d a → IsCall d.system a
made-IsCall d Action.accepts all h = tt
made-IsCall d Action.undecodes all h = h
made-IsCall d Action.attaches all h = tt
made-IsCall d (Action.detaches now epoch) all h = h
made-IsCall d Action.resumes all h = tt
made-IsCall d (Action.decodes epoch ordered) all h = h
made-IsCall d (Action.begins i) all (e, at, h) = (e, at, (all i e at).spawned h)
made-IsCall d (Action.abandons i) all (e, at, h) = (e, at, may_abandon e (d.tasks i) h (all i e at))
made-IsCall d (Action.drains i) all (e, at, h) = (e, at, ((all i e at).draining h).0)
made-IsCall d (Action.stops i) all (e, at, h) = (e, at, ((all i e at).draining h).0)
made-IsCall d (Action.finishes i) all (e, at, h) = (e, at, (all i e at).running h)

unserved-AllAgree : (id token : ℕ) → AllAgree (unserved id token)
unfolding unserved created
unserved-AllAgree id token i e at = absurd (ground arith)

-- Whatever requests a session serves, in whatever order their tasks and workers go on, connections come
-- and go and the session resumes: a method that `handle_request` calls where its task or its worker has
-- got to, or the code of a connection, does not panic. No assertion on a request's phase fails, and no
-- counter is taken below zero.
pub serve-no_panic :
    (id token : ℕ) (acts : List Action) (d : Served) (a : Action)
    → serve_all (unserved id token) acts ≡ some d
    → IsMade d a
    → step d.system a ≢ none
unfolding unserved
serve-no_panic id token acts d a h made =
    let (ran, all) = serve_all_lem (unserved id token) d acts h (unserved-AllAgree id token) in
    run-no_panic id token acts d.system a ran (made-IsCall d a all made)
