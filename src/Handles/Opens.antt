-- ===== src/Handles/Opens.antt =====
-- crates/server/src/handles.rs: what an open keeps under its id, what a release takes away, and when a
-- session is reported.
use jackalopefs.Common.{
  ℕ, suc, ◌+◌, List, length, sum_by, ==_iff, ◌*◌, ◌^◌, ◌≤◌, ◌<◌, ◌≡◌, ◌≢◌, ◌⊎◌, inl, inr, refl, sym,
  ap, ◌∙◌, Bool-cases, Option, none, some, arith, ◌==◌, ltb, if◌then◌else◌, insert, erase,
  lookup-insert, lookup-erase_ne, lookup-erase_self,
}
use Prim.Native.Nat.{max}
use jackalopefs.Perf.Doubling.{doubling_due_lem, IsHighest}
use jackalopefs.Handles.Table.{
  Handle, HandlePool, Handles, Inserted, failed, duplicate, slot, refused, pool_full, get, reserve,
  take_slot, insert_slot, inserted, report, remove, give,
}
use jackalopefs.Handles.World.{World, Action, run, held, IsTable, IsPooled}
use jackalopefs.Handles.Pool.Steps.{run-IsPooled}
use jackalopefs.Handles.Pool.{
  report_table, insert_slot_inv, remove_inv, removed-IsTable, settle_table,
}

-- Whatever opened, released and ended before: an open of an id that holds no handle is refused exactly
-- when the handles held in all tables and the opens under way are as many as the pool has slots, and it
-- then takes none; otherwise it takes one slot.
pub reserve_room :
    (w w' : World) (acts : List Action) (h : Handles) (fh : ℕ)
    → run w acts ≡ some w'
    → IsPooled w
    → get h fh ≡ none
    → let taken = sum_by held w'.tables + length w'.slots in
      ((taken ≡ w'.pool.capacity) × (reserve w'.pool h fh ≡ (w'.pool, refused pool_full)))
      ⊎ ((taken < w'.pool.capacity)
          × (reserve w'.pool h fh ≡ (record w'.pool { used = suc taken }, slot)))
unfolding reserve get take_slot
reserve_room w w' acts h fh ran pooled absent =
    let now = run-IsPooled w w' acts ran pooled in
    elim (Bool-cases (ltb w'.pool.used w'.pool.capacity)) [
      | inl free ↦ inr (
        ground (arith, now.used),
        rw (absent, reserve) (rw (free, take_slot) (ground (arith, now.used))),
      )
      | inr full ↦
          inl
            (ground (arith, now.used, now.within), rw (absent, reserve) (rw (full, take_slot) refl))
    ]

-- An open gets a slot only under an id that holds no handle.
reserve_slot :
    (p p' : HandlePool) (h : Handles) (fh : ℕ)
    → reserve p h fh ≡ (p', slot)
    → (get h fh ≡ none) × (p' ≡ record p { used = suc p.used })
unfolding reserve get take_slot
reserve_slot p p' h fh e = ground arith

insert_slot_duplicate :
    (p p' : HandlePool) (h : Handles) (fh : ℕ) (a b : Handle)
    → get h fh ≡ some a
    → give p ≡ some p'
    → insert_slot p h fh b ≡ some (p', h, failed duplicate)
unfolding insert_slot get
insert_slot_duplicate p p' h fh a b there gave = rw (there, insert_slot) (rw gave refl)

-- An open that inserts under an id that nobody holds keeps its handle there, and every other id keeps
-- what it had.
pub get-insert_slot :
    (p p' : HandlePool) (h h' : Handles) (fh other : ℕ) (handle : Handle) (answer : Inserted)
    → get h fh ≡ none
    → insert_slot p h fh handle ≡ some (p', h', answer)
    → get h' other ≡ (if other == fh then some handle else get h other)
unfolding get inserted
get-insert_slot p p' h h' fh other handle answer absent e =
    let (n, did, same) = insert_slot_inv p p' h h' fh handle answer absent e in
    let same_table = (report_table (inserted h fh handle) h' _ n did).0 in
    let table : (inserted h fh handle).table ≡ insert fh handle h.table = ground arith in
    rw (same_table, table) (lookup-insert fh other handle h.table)

-- Two opens that reserve the same id before either inserts: the first to insert keeps its handle there,
-- the second fails as a duplicate and changes no table, and its slot goes back, so that of the two that
-- they took one stays taken.
pub insert_slot_raced :
    (p p1 p2 p3 : HandlePool) (h h3 : Handles) (fh : ℕ) (a b : Handle) (answer : Inserted)
    → reserve p h fh ≡ (p1, slot)
    → reserve p1 h fh ≡ (p2, slot)
    → insert_slot p2 h fh a ≡ some (p3, h3, answer)
    → (insert_slot p3 h3 fh b ≡ some (record p { used = suc p.used }, h3, failed duplicate))
      × (get h3 fh ≡ some a)
unfolding give get
insert_slot_raced p p1 p2 p3 h h3 fh a b answer r1 r2 e =
    let (absent, took1) = reserve_slot p p1 h fh r1 in
    let (_, took2) = reserve_slot p1 p2 h fh r2 in
    let (_, _, same) = insert_slot_inv p2 p3 h h3 fh a answer absent e in
    let there : get h3 fh ≡ some a =
      get-insert_slot p2 p3 h h3 fh fh a answer absent e ∙ rw ((==_iff fh fh).1 refl) refl in
    (
      insert_slot_duplicate p3 (record p { used = suc p.used }) h3 fh a b there
          (ground (arith, took1, took2, same)),
      there,
    )

-- A release takes the handle under its id away, gives its slot back, and leaves every other id alone.
pub get-remove :
    (p p' : HandlePool) (h h' : Handles) (fh : ℕ) (handle : Handle) (gone : Option Handle)
    → IsTable h
    → get h fh ≡ some handle
    → remove p h fh ≡ some (p', h', gone)
    → (gone ≡ some handle)
      × (suc p'.used ≡ p.used)
      × (get h' fh ≡ none)
      × ((other : ℕ) → other ≢ fh → get h' other ≡ get h other)
unfolding get give
get-remove p p' h h' fh handle gone t there e =
    let (h1, did, gave, settled, took) = remove_inv p p' h h' fh gone handle there e in
    let (_, _, table) = removed-IsTable h h1 fh handle there did t in
    let same : h'.table ≡ erase fh h.table =
      sym (ap (λ (x : Handles). x.table) settled) ∙ (settle_table h1).0 ∙ table in
    (
      took,
      ground arith,
      rw same (lookup-erase_self fh h.table t.ids),
      λ other ne. rw same (lookup-erase_ne fh other h.table ne),
    )

-- A table that holds `n` handles is reported when `n` has reached the session's share and twice the
-- threshold last reported, unless that is out of range; what is then kept as reported is the highest of
-- the share, or 1, and its doublings that `n` has reached, and the session's client is told of `n` and
-- the share. Otherwise nothing changes.
pub report_lem :
    (h : Handles) (n : ℕ)
    → n < 2 ^ 64
    → ((report h n ≡ some (h, none))
        × ((n < max h.share 1) ⊎ (n < h.reported * 2) ⊎ (2 ^ 64 ≤ h.reported * 2)))
      ⊎ ((r : ℕ) × (report h n
            ≡ some (
              record h { reported = r; notice = some (record { held = n; share = h.share }) },
              some n,
            ))
          × (max h.share 1 ≤ n)
          × (h.reported * 2 ≤ n)
          × IsHighest (max h.share 1) n r)
unfolding report
report_lem h n in_range =
    elim (doubling_due_lem n (max h.share 1) h.reported in_range (omega arith)) [
      | inl (e, why) ↦ inl (rw e refl, why)
      | inr (r, e, reached, doubled, highest) ↦ inr (r, rw e refl, reached, doubled, highest)
    ]
