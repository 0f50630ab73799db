-- ===== src/Handles/Pool.antt =====
-- crates/server/src/handles.rs: what `insert` and `remove` do to the pool and to one table.
pub mod Steps
use jackalopefs.Common.{
  ℕ, suc, ◌+◌, ◌≤◌, ◌≡◌, refl, subst, ◌∙◌, Bool, true, false, not, Option, none, some,
  some-injective, List, [], ◌∷◌, arith, get_elem?, set, length, sum_by, sum_by-set, remove_at,
  length-remove_at, All, All-set, All-get_elem?, lookup, insert, erase, count_if-insert,
  count_if-erase, insert-IsMap, erase-IsMap, length-insert_new, length-erase, >>=-eq-some,
  Option-cases, inl, inr,
}
use jackalopefs.Handles.Table.{
  Handle, HandlePool, Handles, Reserved, Inserted, is_dir, new, reserve, insert_slot, drop_slot,
  remove, drop_table, report, settle, inserted, removed, give, give_all,
}
use jackalopefs.Handles.World.{World, Action, step, run, IsTable, IsPooled, held}

-- What a method does to the pool and one table, `slots` being the change in the slots.
pub record IsKept (p : HandlePool) (h : Handles) (before : ℕ) (p' : HandlePool) (h' : Handles)
    (after : ℕ) : Type 0 where
  pub table : IsTable h'
  pub used : p'.used + held h + before ≡ p.used + held h' + after
  pub fewer : p'.used ≤ p.used
  pub capacity : p'.capacity ≡ p.capacity

pub report_table :
    (h h' : Handles) (n : ℕ) (answer : Option ℕ)
    → report h n ≡ some (h', answer)
    → (h'.table ≡ h.table) × (h'.files ≡ h.files) × (h'.dirs ≡ h.dirs) × (h'.share ≡ h.share)
unfolding report
report_table h h' n answer e = ground arith

pub settle_table :
    (h : Handles)
    → ((settle h).table ≡ h.table)
      × ((settle h).files ≡ h.files)
      × ((settle h).dirs ≡ h.dirs)
      × ((settle h).share ≡ h.share)
unfolding settle
settle_table h = ground arith

pub inserted-IsTable :
    (h : Handles) (fh : ℕ) (handle : Handle)
    → lookup fh h.table ≡ none
    → IsTable h
    → IsTable (inserted h fh handle) × (held (inserted h fh handle) ≡ suc (held h))
unfolding inserted
inserted-IsTable h fh handle absent t = (
  record {
    ids = ground (arith, insert-IsMap fh handle h.table t.ids);
    files = ground (arith, count_if-insert (λ x. not (is_dir x)) fh handle h.table absent);
    dirs = ground (arith, count_if-insert is_dir fh handle h.table absent);
  },
  ground (arith, length-insert_new fh handle h.table absent),
)

pub removed-IsTable :
    (h h' : Handles) (fh : ℕ) (handle : Handle)
    → lookup fh h.table ≡ some handle
    → removed h fh handle ≡ some h'
    → IsTable h
    → IsTable h' × (suc (held h') ≡ held h) × (h'.table ≡ erase fh h.table)
unfolding removed
removed-IsTable h h' fh handle there e t =
    let same : h'.table ≡ erase fh h.table = ground arith in
    (
      record {
        ids = rw same (erase-IsMap fh h.table t.ids);
        files =
            rw same (ground (arith, count_if-erase (λ x. not (is_dir x)) fh handle h.table there));
        dirs = rw same (ground (arith, count_if-erase is_dir fh handle h.table there));
      },
      rw same (length-erase fh handle h.table there),
      same,
    )

same-IsTable :
    (h h' : Handles)
    → (h'.table ≡ h.table) × (h'.files ≡ h.files) × (h'.dirs ≡ h.dirs)
    → IsTable h
    → IsTable h'
same-IsTable h h' same t = record {
  ids = rw same.0 t.ids;
  files = rw same.0 (same.1 ∙ t.files);
  dirs = rw same.0 (same.2 ∙ t.dirs);
}

pub insert_slot_inv :
    (p p' : HandlePool) (h h' : Handles) (fh : ℕ) (handle : Handle) (answer : Inserted)
    → lookup fh h.table ≡ none
    → insert_slot p h fh handle ≡ some (p', h', answer)
    → (n : Option ℕ) × (report (inserted h fh handle) (held (inserted h fh handle)) ≡ some (h', n))
      × (p' ≡ p)
unfolding insert_slot
insert_slot_inv p p' h h' fh handle answer absent e =
    let e' = rw (absent, insert_slot) at e in
    let ((h2, n), did, rest) =
      >>=-eq-some (report (inserted h fh handle) (held (inserted h fh handle))) _ e' in
    (n, did ∙ ground arith, ground arith)

pub remove_inv :
    (p p' : HandlePool) (h h' : Handles) (fh : ℕ) (taken : Option Handle) (handle : Handle)
    → lookup fh h.table ≡ some handle
    → remove p h fh ≡ some (p', h', taken)
    → (h1 : Handles) × (removed h fh handle ≡ some h1)
      × (give p ≡ some p')
      × (settle h1 ≡ h')
      × (taken ≡ some handle)
unfolding remove
remove_inv p p' h h' fh taken handle there e =
    let e' = rw (there, remove) at e in
    let (p1, gave, rest) = >>=-eq-some (give p) _ e' in
    let (h1, did, last) = >>=-eq-some (removed h fh handle) _ rest in
    (h1, did, gave ∙ ground arith, ground arith, ground arith)

pub insert_slot-IsKept :
    (p p' : HandlePool) (h h' : Handles) (fh : ℕ) (handle : Handle) (answer : Inserted)
    → IsTable h
    → insert_slot p h fh handle ≡ some (p', h', answer)
    → IsKept p h 1 p' h' 0
unfolding insert_slot give
insert_slot-IsKept p p' h h' fh handle answer t e = elim (Option-cases (lookup fh h.table)) [
  | inr (other, there) ↦ record {
    table = same-IsTable h h' (ground arith) t;
    used = ground arith;
    fewer = ground arith;
    capacity = ground arith;
  }
  | inl absent ↦
      let (t1, longer) = inserted-IsTable h fh handle absent t in
      let (n, did, same) = insert_slot_inv p p' h h' fh handle answer absent e in
      let kept = report_table (inserted h fh handle) h' _ n did in
      record {
        table = same-IsTable (inserted h fh handle) h' (kept.0, kept.1, kept.2) t1;
        used = ground (arith, kept.0, longer);
        fewer = ground arith;
        capacity = ground arith;
      }
]

pub remove-IsKept :
    (p p' : HandlePool) (h h' : Handles) (fh : ℕ) (gone : Option Handle)
    → IsTable h
    → remove p h fh ≡ some (p', h', gone)
    → IsKept p h 0 p' h' 0
unfolding remove give
remove-IsKept p p' h h' fh gone t e = elim (Option-cases (lookup fh h.table)) [
  | inl absent ↦ record {
    table = same-IsTable h h' (ground arith) t;
    used = ground arith;
    fewer = ground arith;
    capacity = ground arith;
  }
  | inr (handle, there) ↦
      let (h1, did, gave, settled, _) = remove_inv p p' h h' fh gone handle there e in
      let (t1, shorter, _) = removed-IsTable h h1 fh handle there did t in
      let kept = settle_table h1 in
      record {
        table = subst IsTable settled (same-IsTable h1 (settle h1) (kept.0, kept.1, kept.2) t1);
        used = ground (arith, kept.0, shorter);
        fewer = ground arith;
        capacity = ground arith;
      }
]
