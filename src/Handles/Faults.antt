-- ===== src/Handles/Faults.antt =====
-- crates/server/src/handles.rs: no count of handles or slots is taken below zero.
use jackalopefs.Common.{
  ℕ, ◌^◌, ◌<◌, ◌≡◌, ◌≢◌, inl, inr, not, none, some, List, arith, ◌==◌, get_elem?, sum_by-le,
  length-remove_at, All-get_elem?, lookup, count_if, count_if-erase, Option-cases, length-erase,
}
use jackalopefs.Handles.Table.{
  Handle, Handles, is_dir, insert_slot, inserted, report, drop_slot, give, give_all, remove,
  removed, drop_table,
}
use jackalopefs.Handles.World.{World, Action, step, run, IsTable, IsPooled, held}
use jackalopefs.Handles.Pool.{inserted-IsTable}
use jackalopefs.Handles.Pool.Steps.{run-IsPooled}
use jackalopefs.Handles.Opens.{report_lem}

-- The table that an action is of, and where it must be, the slot.
abbrev pub IsCall : World → Action → Type 0
IsCall w (Action.reserves i fh) = (h : Handles) × (get_elem? w.tables i ≡ some h)
IsCall w (Action.removes i fh) = (h : Handles) × (get_elem? w.tables i ≡ some h)
IsCall w (Action.inserts k handle) =
    (s : ℕ × ℕ) × (get_elem? w.slots k ≡ some s)
    × ((h : Handles) × (get_elem? w.tables s.0 ≡ some h))
IsCall w (Action.drops k) = (s : ℕ × ℕ) × (get_elem? w.slots k ≡ some s)
IsCall w (Action.closes i) =
    ((h : Handles) × (get_elem? w.tables i ≡ some h)) × (count_if (λ s. s.0 == i) w.slots ≡ 0)

report-ne-none : (h : Handles) (n : ℕ) → n < 2 ^ 64 → report h n ≢ none
report-ne-none h n small bad = ground (arith, report_lem h n small)

slot_taken :
    (w : World) (k : ℕ) (s : ℕ × ℕ) → get_elem? w.slots k ≡ some s → IsPooled w → 0 < w.pool.used
slot_taken w k s at c = omega (arith, c.used, length-remove_at w.slots k s at)

removed-ne-none :
    (h : Handles) (fh : ℕ) (handle : Handle)
    → IsTable h
    → lookup fh h.table ≡ some handle
    → removed h fh handle ≢ none
unfolding removed
removed-ne-none h fh handle t there bad = ground (
  arith,
  t.files,
  t.dirs,
  count_if-erase (λ x. not (is_dir x)) fh handle h.table there,
  count_if-erase is_dir fh handle h.table there,
)

module _ (w : World) (c : IsPooled w) where
  remove_ok : (i fh : ℕ) (h : Handles) → get_elem? w.tables i ≡ some h → remove w.pool h fh ≢ none
  unfolding remove give
  remove_ok i fh h at bad = elim (Option-cases (lookup fh h.table)) [
    | inl absent ↦ ground arith
    | inr (handle, there) ↦ ground (
      arith,
      c.used,
      sum_by-le held w.tables i h at,
      length-erase fh handle h.table there,
      removed-ne-none h fh handle (All-get_elem? IsTable w.tables i at c.tables) there,
    )
  ]

  insert_ok :
      (k i fh : ℕ) (h : Handles) (handle : Handle)
      → w.pool.capacity < 2 ^ 64
      → get_elem? w.slots k ≡ some (i, fh)
      → get_elem? w.tables i ≡ some h
      → insert_slot w.pool h fh handle ≢ none
  unfolding insert_slot give
  insert_ok k i fh h handle small slot_at at bad = elim (Option-cases (lookup fh h.table)) [
    | inr (other, there) ↦ ground (arith, slot_taken w k (i, fh) slot_at c)
    | inl absent ↦
        let (_, longer) =
          inserted-IsTable h fh handle absent (All-get_elem? IsTable w.tables i at c.tables) in
        ground (
          arith,
          report-ne-none (inserted h fh handle) (held (inserted h fh handle)) (
              omega (
                arith,
                longer,
                c.used,
                c.within,
                sum_by-le held w.tables i h at,
                length-remove_at w.slots k (i, fh) slot_at,
              )),
        )
  ]

  step_ok : (a : Action) → w.pool.capacity < 2 ^ 64 → IsCall w a → step w a ≢ none
  unfolding step drop_slot give drop_table give_all
  step_ok (Action.reserves i fh) small (h, at) bad = ground arith
  step_ok (Action.removes i fh) small (h, at) bad = ground (arith, remove_ok i fh h at)
  step_ok (Action.inserts k handle) small ((i, fh), slot_at, (h, at)) bad =
      ground (arith, insert_ok k i fh h handle small slot_at at)
  step_ok (Action.drops k) small (s, at) bad = ground (arith, slot_taken w k s at c)
  step_ok (Action.closes i) small ((h, at), z) bad =
      ground (arith, c.used, sum_by-le held w.tables i h at)

-- Whatever opens, releases and ends, in any order, from a state whose counts are of its handles and
-- slots: a method that is called of a table and a slot that are there takes no counter below zero, and its report is computed, if the pool has fewer than 2^64
-- slots.
pub run-no_fault :
    (w u : World) (acts : List Action) (a : Action)
    → run w acts ≡ some u
    → IsPooled w
    → u.pool.capacity < 2 ^ 64
    → IsCall u a
    → step u a ≢ none
run-no_fault w u acts a e c small call = step_ok u (run-IsPooled w u acts e c) a small call
