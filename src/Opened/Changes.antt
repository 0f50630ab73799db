-- ===== src/Opened/Changes.antt =====
-- crates/client/src/machine.rs: what an open, a release, the end of a reopen and a loss of every handle
-- change in the table and the round.
use jackalopefs.Common.{
  ℕ, ◌≡◌, ◌⊎◌, inl, inr, sym, subst, Bool, true, some, some-injective, [], ◌∷◌, arith, >>=-eq-some,
  ◌++◌, length, lookup, insert, erase, IsMap, lookup-erase_ne, lookup-erase_self, erase-IsMap,
}
use jackalopefs.Call.Machine.{Outcome}
use jackalopefs.Opened.Table.{
  HandleRec, HandleTable, is_dead, mark_dead, get, count_up, count_down, insert_handle,
  remove_handle, release_begins, live, kill_all, owe_killed, apply_reopen,
}
use jackalopefs.Opened.Round.{ReopenRound, take_reopen, ended}
use jackalopefs.Opened.Dead.{is_dead-mark_dead, is_dead-kill_recs}

-- The table may lose handles, and records in it may die.
pub record IsLess (t u : HandleTable) : Type 0 where
  pub held : IsMap u.map
  pub fewer : (fh r : ℕ) → lookup fh u.map ≡ some r → lookup fh t.map ≡ some r
  pub dead : (r : ℕ) → is_dead t.recs r ≡ true → is_dead u.recs r ≡ true

release_begins-map :
    (t u : HandleTable) (fh : ℕ) (b : Bool)
    → release_begins t fh ≡ some (u, b)
    → (u.map ≡ t.map ⊎ u.map ≡ erase fh t.map) × (u.recs ≡ t.recs)
unfolding release_begins remove_handle count_down get
release_begins-map t u fh b e = ground arith

erased-IsLess :
    (t u : HandleTable) (fh : ℕ)
    → IsMap t.map
    → u.map ≡ erase fh t.map
    → u.recs ≡ t.recs
    → IsLess t u
erased-IsLess t u fh m e same = record {
  held = subst IsMap (sym e) (erase-IsMap fh t.map m);
  fewer = λ g r at. ground (arith, lookup-erase_ne fh g t.map, lookup-erase_self fh t.map m);
  dead = λ r h. subst (λ x. is_dead x r ≡ true) (sym same) h;
}

pub release_begins-IsLess :
    (t u : HandleTable) (fh : ℕ) (b : Bool)
    → IsMap t.map
    → release_begins t fh ≡ some (u, b)
    → IsLess t u
release_begins-IsLess t u fh b m e =
    let (maps, same) = release_begins-map t u fh b e in
    elim maps [
      | inl kept ↦ record {
        held = subst IsMap (sym kept) m;
        fewer = λ g r at. cc;
        dead = λ r h. subst (λ x. is_dead x r ≡ true) (sym same) h;
      }
      | inr erased ↦ erased-IsLess t u fh m erased same
    ]

pub kill_all-IsLess : (t u : HandleTable) → IsMap t.map → kill_all t ≡ some u → IsLess t u
unfolding kill_all
kill_all-IsLess t u m e =
    let (s, paid, done) = >>=-eq-some (owe_killed (live t) t.recs t.owed) _ e in
    subst (IsLess t) (some-injective _ _ done) (record {
      held = m;
      fewer = λ fh r at. at;
      dead = λ r h. is_dead-kill_recs (live t) t.recs r h;
    })

-- What an insertion does.
pub insert_handle-map :
    (t u : HandleTable) (fh : ℕ) (rec : HandleRec)
    → insert_handle t fh rec ≡ some u
    → (u.map ≡ insert fh (length t.recs) t.map) × (u.recs ≡ t.recs ++ rec ∷ [])
unfolding insert_handle count_up count_down get
insert_handle-map t u fh rec e = ground arith

-- A reopen that ends is taken out of the round, and leaves its handle dead, gone or found.
pub record IsEnd (t u : HandleTable) (round now : ReopenRound) (fh r : ℕ) : Type 0 where
  pub same : u.map ≡ t.map
  pub recs : (u.recs ≡ t.recs) ⊎ (u.recs ≡ mark_dead r t.recs)
  pub taken :
      ((lookup fh round.sending ≡ some r)
        × (now.sending ≡ erase fh round.sending)
        × (now.unsent ≡ round.unsent))
      ⊎ ((lookup fh round.unsent ≡ some r)
          × (now.sending ≡ round.sending)
          × (now.unsent ≡ erase fh round.unsent))
  pub reopened : (now.reopened ≡ round.reopened) ⊎ (now.reopened ≡ fh ∷ round.reopened)
  pub settled :
      lookup fh t.map ≡ some r → (is_dead u.recs r ≡ true) ⊎ (now.reopened ≡ fh ∷ round.reopened)

pub ended-IsEnd :
    (t u : HandleTable) (round now left : ReopenRound) (fh r : ℕ) (outcome : Outcome)
    → take_reopen round fh ≡ some (left, r)
    → ended t round fh outcome ≡ some (u, now)
    → IsEnd t u round now fh r
unfolding ended take_reopen apply_reopen get
ended-IsEnd t u round now left fh r outcome took e = record {
  same = ground arith;
  recs = ground arith;
  taken = ground arith;
  reopened = ground arith;
  settled = λ at. ground arith;
}

pub end_dead :
    (t u : HandleTable) (round now : ReopenRound) (fh r k : ℕ)
    → IsEnd t u round now fh r
    → is_dead t.recs k ≡ true
    → is_dead u.recs k ≡ true
end_dead t u round now fh r k n h = elim n.recs [
  | inl e ↦ subst (λ x. is_dead x k ≡ true) (sym e) h
  | inr e ↦ subst (λ x. is_dead x k ≡ true) (sym e) (is_dead-mark_dead t.recs r k h)
]
