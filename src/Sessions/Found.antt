-- ===== src/Sessions/Found.antt =====
-- crates/server/src/session.rs: the session that a resume finds, and what becomes of it.
use jackalopefs.Common.{ℕ, suc, ◌≡◌, ◌≢◌, ◌⊎◌, true, false, some, arith, >>=-eq-some, lookup, alter}
use jackalopefs.Session.State.{SessionState, reattach}
use jackalopefs.Sessions.Table.{Sessions, has, without_id, insert_id, find, resume}

-- The session `s` is found under `id`: it is in the table, or it was dropped and is held. It comes back
-- to the table.
pub record IsResumed (t u : Sessions) (id token : ℕ) (s : SessionState) : Type 0 where
  pub at : lookup id t.heap ≡ some s
  pub token_right : s.resume_token ≡ token
  pub heap : u.heap ≡ alter id reattach t.heap
  pub next_id : u.next_id ≡ t.next_id
  pub moved :
      ((has id t.map ≡ true) × (u.map ≡ t.map) × (u.dropped ≡ t.dropped))
      ⊎ ((has id t.map ≡ false)
          × (s.holders ≢ 0)
          × (u.map ≡ insert_id id t.map)
          × (u.dropped ≡ without_id id t.dropped))

-- A resume that answers has found a session that is in the table, or that was dropped and has something
-- under way; the token is the session's; its answer is the next epoch; and the session is attached
-- anew, back in the table and taken from those dropped if it was dropped, while no other session
-- changes.
pub resume-IsResumed :
    (t u : Sessions) (id token epoch : ℕ)
    → resume t id token ≡ some (u, epoch)
    → (s : SessionState) × IsResumed t u id token s × (epoch ≡ suc s.attachment.epoch)
unfolding resume find
resume-IsResumed t u id token epoch e =
    let ((s, dropped), found, rest) = >>=-eq-some (find t id) _ e in
    (
      s,
      record {
        at = ground arith;
        token_right = ground arith;
        heap = ground arith;
        next_id = ground arith;
        moved = ground arith;
      },
      ground arith,
    )
