-- ===== src/Sessions/Resumes.antt =====
-- crates/server/src/session.rs: which sessions a client gets back.
use jackalopefs.Common.{
  ℕ, suc, ◌≡◌, ◌≢◌, ◌⊎◌, inl, inr, Bool-cases, true, false, some, List, arith, lookup, alter,
  lookup-alter,
}
use jackalopefs.Session.State.{SessionState, reattach}
use jackalopefs.Sessions.Table.{Sessions, has, without_id, insert_id, find, resume}
use jackalopefs.Sessions.Steps.{World, Action, start, run}
use jackalopefs.Sessions.Kept.{run-IsSound, has-insert_id}

-- Whatever happened: a client that names a session, with its token, gets it back, attached anew under
-- the next epoch, if the session is in the table or has something under way, and was not forgotten.
pub run-resumable :
    (w : World) (acts : List Action) (id : ℕ) (s : SessionState)
    → run start acts ≡ some w
    → lookup id w.table.heap ≡ some s
    → has id w.forgotten ≡ false
    → (has id w.table.map ≡ true) ⊎ (s.holders ≢ 0)
    → (u : Sessions) × (resume w.table id s.resume_token ≡ some (u, suc s.attachment.epoch))
      × (has id u.map ≡ true)
      × (lookup id u.heap ≡ some (reattach s))
unfolding resume find
run-resumable w acts id s ran at known alive =
    let i = run-IsSound w acts ran in
    let t = w.table in
    let put_back : (lookup id (alter id reattach t.heap) ≡ some (reattach s)) =
      ground (arith, lookup-alter id id reattach t.heap) in
    elim (Bool-cases (has id t.map)) [
      | inl inside ↦ (record t { heap = alter id reattach t.heap }, ground arith, inside, put_back)
      | inr outside ↦ (
        record t {
          heap = alter id reattach t.heap;
          map = insert_id id t.map;
          dropped = without_id id t.dropped;
        },
        ground (arith, i.listed id),
        ground (arith, has-insert_id id id t.map),
        put_back,
      )
    ]
