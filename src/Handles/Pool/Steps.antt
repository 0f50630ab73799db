-- ===== src/Handles/Pool/Steps.antt =====
-- crates/server/src/handles.rs: the pool's count stays that of the handles held and the opens under
-- way, and no counter is taken below zero.
use jackalopefs.Common.{
  ℕ, ◌+◌, ◌≡◌, refl, subst, inl, inr, Bool-cases, some, some-injective, List, [], ◌∷◌, arith, ltb,
  get_elem?, set, length, sum_by-set, remove_at, length-remove_at, All-set, All-get_elem?, lookup,
  >>=-eq-some, Option-cases, map, sum_by, All,
}
use jackalopefs.Handles.Table.{
  HandlePool, Handles, new, reserve, take_slot, insert_slot, drop_slot, give, give_all, remove,
  drop_table,
}
use jackalopefs.Handles.World.{
  World, Action, start, after_reserve, step, run, IsTable, IsPooled, held,
}
use jackalopefs.Handles.Pool.{IsKept, insert_slot-IsKept, remove-IsKept}

-- A method on the table in place `i`, with `before` slots gone and `after` come.
table_step-IsPooled :
    (w : World) (i before after : ℕ) (h h' : Handles) (p' : HandlePool) (slots : List (ℕ × ℕ))
    → get_elem? w.tables i ≡ some h
    → IsKept w.pool h before p' h' after
    → length slots + before ≡ length w.slots + after
    → IsPooled w
    → IsPooled (record { pool = p'; tables = set w.tables i h'; slots = slots })
table_step-IsPooled w i before after h h' p' slots at m n c = record {
  tables = All-set IsTable w.tables i h' m.table c.tables;
  used = omega (arith, c.used, m.used, sum_by-set held w.tables i h h' at);
  within = omega (arith, m.fewer, m.capacity, c.within);
}

reserve-IsPooled :
    (w : World) (i fh : ℕ) (h : Handles)
    → IsPooled w
    → IsPooled (after_reserve w i fh (reserve w.pool h fh))
unfolding reserve after_reserve take_slot
reserve-IsPooled w i fh h c = elim (Option-cases (lookup fh h.table)) [
  | inr (handle, there) ↦ rw (there, reserve) c
  | inl absent ↦ elim (Bool-cases (ltb w.pool.used w.pool.capacity)) [
    | inl free ↦
        rw (absent, reserve)
          (rw (free, take_slot)
            (record { tables = c.tables; used = omega (arith, c.used); within = ground arith }))
    | inr full ↦ rw (absent, reserve) (rw (full, take_slot) c)
  ]
]

new-IsTable : (share : ℕ) → IsTable (new share)
unfolding new
new-IsTable share = record { ids = tt; files = refl; dirs = refl }

drop_table-IsKept :
    (p p' : HandlePool) (h : Handles) → drop_table p h ≡ some p' → IsKept p h 0 p' (new h.share) 0
unfolding drop_table give_all new
drop_table-IsKept p p' h e = record {
  table = new-IsTable h.share;
  used = ground arith;
  fewer = ground arith;
  capacity = ground arith;
}

pub step-IsPooled : (w u : World) (a : Action) → step w a ≡ some u → IsPooled w → IsPooled u
unfolding step drop_slot give
step-IsPooled w u (Action.reserves i fh) e c =
    let (h, at, e') = >>=-eq-some (get_elem? w.tables i) _ e in
    subst IsPooled (some-injective _ _ e') (reserve-IsPooled w i fh h c)
step-IsPooled w u (Action.removes i fh) e c =
    let (h, at, e1) = >>=-eq-some (get_elem? w.tables i) _ e in
    let ((p, h', gone), did, e2) = >>=-eq-some (remove w.pool h fh) _ e1 in
    subst IsPooled (some-injective _ _ e2) (
      table_step-IsPooled w i 0 0 h h' p w.slots at
        (remove-IsKept w.pool p h h' fh gone (All-get_elem? IsTable w.tables i at c.tables) did)
        refl c)
step-IsPooled w u (Action.inserts k handle) e c =
    let ((i, fh), slot_at, e0) = >>=-eq-some (get_elem? w.slots k) _ e in
    let (h, at, e1) = >>=-eq-some (get_elem? w.tables i) _ e0 in
    let ((p, h', answer), did, e2) = >>=-eq-some (insert_slot w.pool h fh handle) _ e1 in
    subst IsPooled (some-injective _ _ e2) (
      table_step-IsPooled w i 1 0 h h' p (remove_at w.slots k) at
        (insert_slot-IsKept w.pool p h h' fh handle answer
          (All-get_elem? IsTable w.tables i at c.tables) did)
        (omega (arith, length-remove_at w.slots k (i, fh) slot_at)) c)
step-IsPooled w u (Action.drops k) e c =
    let (s, slot_at, e0) = >>=-eq-some (get_elem? w.slots k) _ e in
    let (p, gave, e1) = >>=-eq-some (drop_slot w.pool) _ e0 in
    subst IsPooled (some-injective _ _ e1) (record {
      tables = c.tables;
      used = ground (arith, c.used, length-remove_at w.slots k s slot_at);
      within = ground (arith, c.within);
    })
step-IsPooled w u (Action.closes i) e c =
    let (h, at, e0) = >>=-eq-some (get_elem? w.tables i) _ e in
    let (p, gave, e1) = >>=-eq-some (drop_table w.pool h) _ e0 in
    let same : record w { pool = p; tables = set w.tables i (new h.share) } ≡ u = ground arith in
    subst IsPooled same (
      table_step-IsPooled w i 0 0 h (new h.share) p w.slots at (drop_table-IsKept w.pool p h gave)
        refl c)

new_tables : (shares : List ℕ) → All IsTable (map new shares) × (sum_by held (map new shares) ≡ 0)
unfolding new
new_tables [] = (tt, refl)
new_tables (share ∷ shares) =
    let (tables, empty) = new_tables shares in ((new-IsTable share, tables), omega arith)

-- The counts hold of sessions that have opened nothing.
pub start-IsPooled : (capacity : ℕ) (shares : List ℕ) → IsPooled (start capacity shares)
unfolding start
start-IsPooled capacity shares = record {
  tables = (new_tables shares).0;
  used = omega (arith, (new_tables shares).1);
  within = omega arith;
}

-- Whatever opens, releases and ends, in any order, from a state where it is so, as it is of sessions
-- that have opened nothing: the slots taken are
-- those of the handles held and of the opens under way, each counted once and never more than the pool
-- has; and each table's counts by kind are of its handles.
pub run-IsPooled :
    (w u : World) (acts : List Action) → run w acts ≡ some u → IsPooled w → IsPooled u
unfolding run
run-IsPooled w u [] e c = subst IsPooled (some-injective _ _ e) c
run-IsPooled w u (a ∷ acts) e c =
    let (m, did, rest) = >>=-eq-some (step w a) _ e in
    run-IsPooled m u acts rest (step-IsPooled w m a did c)
