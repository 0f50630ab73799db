-- ===== src/Opened/Covered.antt =====
-- crates/client/src/machine.rs: that a round of reopens leaves out no handle.
use jackalopefs.Common.{
  ℕ, ◌≡◌, ◌⊎◌, inl, inr, refl, sym, subst, Bool, true, false, none, some, some-injective, List, [],
  ◌∷◌, arith, ◌==◌, if◌then◌else◌, >>=-eq-some, length, lookup, insert, erase, IsMap, lookup-insert,
  lookup-erase_ne, lookup-erase_self, insert-IsMap, erase-IsMap,
}
use jackalopefs.Opened.Table.{
  HandleRec, HandleTable, is_dead, alloc, insert_handle, release_begins, live, kill_all,
}
use jackalopefs.Opened.Round.{
  ReopenRound, new_round, send, take_reopen, ended, is_none, publishable, World, Action, start,
  step, run,
}
use jackalopefs.Opened.Changes.{
  IsLess, release_begins-IsLess, kill_all-IsLess, insert_handle-map, IsEnd, ended-IsEnd, end_dead,
}
use jackalopefs.Opened.Dead.{is_dead-append, live_in-lookup, live_in-IsMap}

abbrev pub is_in : ℕ → List ℕ → Bool
is_in fh [] = false
is_in fh (x ∷ xs) = if fh == x then true else is_in fh xs

-- What accounts for a handle held: it is dead, its reopen has not ended or has found its file, or it
-- was opened since the round began.
abbrev IsAccounted : HandleTable → ReopenRound → List ℕ → ℕ → ℕ → Type 0
IsAccounted t round opened fh r =
    (is_dead t.recs r ≡ true)
    ⊎ (lookup fh round.unsent ≡ some r)
    ⊎ (lookup fh round.sending ≡ some r)
    ⊎ (is_in fh round.reopened ≡ true)
    ⊎ (is_in fh opened ≡ true)

record IsCovered (w : World) : Type 0 where
  pub held : IsMap w.table.map
  pub waiting : IsMap w.round.unsent
  pub apart : (fh : ℕ) → (lookup fh w.round.unsent ≡ none) ⊎ (lookup fh w.round.sending ≡ none)
  pub all : (fh r : ℕ) → lookup fh w.table.map ≡ some r → IsAccounted w.table w.round w.opened fh r

start-IsCovered : IsCovered start
unfolding start
start-IsCovered = record { held = tt; waiting = tt; apart = λ fh. inl refl; all = λ fh r e. cc }

begins-IsCovered :
    (w : World) → IsCovered w → IsCovered (record w { round = new_round w.table; opened = [] })
unfolding new_round live
begins-IsCovered w i = record {
  held = i.held;
  waiting = live_in-IsMap w.table.recs w.table.map i.held;
  apart = λ fh. inr refl;
  all = λ fh r e. ground (arith, live_in-lookup w.table.recs w.table.map fh r e);
}

send-IsCovered :
    (w : World) (fh r : ℕ)
    → lookup fh w.round.unsent ≡ some r
    → IsCovered w
    → IsCovered (record w {
      round = record w.round {
        unsent = erase fh w.round.unsent;
        sending = insert fh r w.round.sending;
      };
    })
send-IsCovered w fh r e i = record {
  held = i.held;
  waiting = erase-IsMap fh w.round.unsent i.waiting;
  apart = λ g. ground (
    arith,
    lookup-insert fh g r w.round.sending,
    lookup-erase_ne fh g w.round.unsent,
    lookup-erase_self fh w.round.unsent i.waiting,
    i.apart g,
  );
  all = λ g k at. ground (
    arith,
    lookup-insert fh g r w.round.sending,
    lookup-erase_ne fh g w.round.unsent,
    i.all g k at,
    i.apart g,
  );
}

less-IsCovered :
    (w : World) (t : HandleTable)
    → IsLess w.table t
    → IsCovered w
    → IsCovered (record w { table = t })
less-IsCovered w t l i = record {
  held = l.held;
  waiting = i.waiting;
  apart = i.apart;
  all = λ fh r at. ground (arith, i.all fh r (l.fewer fh r at), l.dead r);
}

ids-IsCovered : (w : World) → IsCovered w → IsCovered (record w { table = (alloc w.table).0 })
unfolding alloc
ids-IsCovered w i = record { held = i.held; waiting = i.waiting; apart = i.apart; all = i.all }

opens-IsCovered :
    (w : World) (u : HandleTable) (fh : ℕ) (rec : HandleRec)
    → insert_handle w.table fh rec ≡ some u
    → IsCovered w
    → IsCovered (record w { table = u; opened = fh ∷ w.opened })
opens-IsCovered w u fh rec e i =
    let (maps, recs) = insert_handle-map w.table u fh rec e in
    record {
      held = subst IsMap (sym maps) (insert-IsMap fh (length w.table.recs) w.table.map i.held);
      waiting = i.waiting;
      apart = i.apart;
      all = λ g r at. ground (
        arith,
        lookup-insert fh g (length w.table.recs) w.table.map,
        i.all g r,
        is_dead-append w.table.recs (rec ∷ []) r,
      );
    }

end-IsAccounted :
    (t u : HandleTable) (round now : ReopenRound) (opened : List ℕ) (fh r g k : ℕ)
    → IsEnd t u round now fh r
    → (lookup fh round.unsent ≡ none) ⊎ (lookup fh round.sending ≡ none)
    → lookup g t.map ≡ some k
    → IsAccounted t round opened g k
    → IsAccounted u now opened g k
end-IsAccounted t u round now opened fh r g k n apart at a = ground (
  arith,
  n.taken,
  n.reopened,
  n.settled,
  end_dead t u round now fh r k n,
  lookup-erase_ne fh g round.sending,
  lookup-erase_ne fh g round.unsent,
)

end-IsCovered :
    (w : World) (u : HandleTable) (now : ReopenRound) (fh r : ℕ)
    → IsEnd w.table u w.round now fh r
    → IsCovered w
    → IsCovered (record w { table = u; round = now })
end-IsCovered w u now fh r n i = record {
  held = subst IsMap (sym n.same) i.held;
  waiting = elim n.taken [
    | inl (_, _, e) ↦ subst IsMap (sym e) i.waiting
    | inr (_, _, e) ↦ subst IsMap (sym e) (erase-IsMap fh w.round.unsent i.waiting)
  ];
  apart = λ g. ground (
    arith,
    n.taken,
    i.apart g,
    lookup-erase_ne fh g w.round.sending,
    lookup-erase_ne fh g w.round.unsent,
    lookup-erase_self fh w.round.unsent i.waiting,
  );
  all = λ g k at.
      let held : lookup g w.table.map ≡ some k = subst (λ x. lookup g x ≡ some k) n.same at in
      end-IsAccounted w.table u w.round now w.opened fh r g k n (i.apart fh) held (i.all g k held);
}

step-IsCovered : (w u : World) (a : Action) → step w a ≡ some u → IsCovered w → IsCovered u
unfolding step send ended
step-IsCovered w u Action.begins e i = subst IsCovered (some-injective _ _ e) (begins-IsCovered w i)
step-IsCovered w u (Action.sends fh) e i =
    let ((round, q), sent, done) = >>=-eq-some (send w.table w.round fh) _ e in
    let (r, at, rest) = >>=-eq-some (lookup fh w.round.unsent) _ sent in
    subst IsCovered (ground arith) (send-IsCovered w fh r at i)
step-IsCovered w u (Action.ends fh outcome) e i =
    let ((t, now), did, done) = >>=-eq-some (ended w.table w.round fh outcome) _ e in
    let ((left, r), took, _) = >>=-eq-some (take_reopen w.round fh) _ did in
    subst IsCovered (some-injective _ _ done)
      (end-IsCovered w t now fh r (ended-IsEnd w.table t w.round now left fh r outcome took did) i)
step-IsCovered w u (Action.releases fh) e i =
    let ((t, b), did, done) = >>=-eq-some (release_begins w.table fh) _ e in
    subst IsCovered (some-injective _ _ done)
      (less-IsCovered w t (release_begins-IsLess w.table t fh b i.held did) i)
step-IsCovered w u Action.kills e i =
    let (t, did, done) = >>=-eq-some (kill_all w.table) _ e in
    subst IsCovered (some-injective _ _ done)
      (less-IsCovered w t (kill_all-IsLess w.table t i.held did) i)
step-IsCovered w u Action.takes_id e i = subst IsCovered (some-injective _ _ e) (ids-IsCovered w i)
step-IsCovered w u (Action.opens fh rec) e i =
    let (t, did, done) = >>=-eq-some (insert_handle w.table fh rec) _ e in
    subst IsCovered (some-injective _ _ done) (opens-IsCovered w t fh rec did i)

run_from : (w u : World) (acts : List Action) → run w acts ≡ some u → IsCovered w → IsCovered u
unfolding run
run_from w u [] e i = subst IsCovered (some-injective _ _ e) i
run_from w u (a ∷ acts) e i =
    let (m, did, rest) = >>=-eq-some (step w a) _ e in
    run_from m u acts rest (step-IsCovered w m a did i)

-- Whatever happens, in whatever order: once a round of reopens may be published, every handle that the
-- client holds is dead, or among those that the round reopened, or was opened after the round began.
pub run-publishable :
    (u : World) (acts : List Action) (fh r : ℕ)
    → run start acts ≡ some u
    → publishable u.round ≡ true
    → lookup fh u.table.map ≡ some r
    → (is_dead u.table.recs r ≡ true)
      ⊎ (is_in fh u.round.reopened ≡ true)
      ⊎ (is_in fh u.opened ≡ true)
unfolding publishable is_none
run-publishable u acts fh r e p at =
    let i = run_from start u acts e start-IsCovered in ground (arith, i.all fh r at)
