-- ===== src/Watch/Counted/Turns.antt =====
-- crates/server/src/watch.rs: a turn of the loop of `Table::evict`.
use jackalopefs.Common.{ℕ, zero, suc, ◌-◌, ◌≡◌, ◌⊎◌, inl, inr, refl, [], length}
use Prim.Native.Nat.{min}
use jackalopefs.Proto.Message.{FilePath}
use jackalopefs.Watch.Table.{Table}
use jackalopefs.Watch.Ops.{drop_leaves, leaves_of, sort_leaves, evict_more}

-- A turn of the loop takes none, or some.
pub evict_more_turn :
    (fuel left : ℕ) (keep : FilePath) (t : Table)
    → let leaves = sort_leaves (leaves_of t.stamps keep [] t.root.children) in
      (evict_more (suc fuel) left keep t ≡ t)
      ⊎ ((k : ℕ) × (evict_more (suc fuel) left keep t
            ≡ evict_more fuel (left - k) keep (drop_leaves k leaves t)))
unfolding evict_more
evict_more_turn fuel left keep t =
    let leaves = sort_leaves (leaves_of t.stamps keep [] t.root.children) in
    elim (min left (length leaves))
      as (λ k.
        (◌≡◌ {A = Table}
          (elim k [
            | zero ↦ t
            | suc n ↦ evict_more fuel (left - suc n) keep (drop_leaves (suc n) leaves t)
          ])
          t)
        ⊎ ((j : ℕ) × (◌≡◌ {A = Table}
              (elim k [
                | zero ↦ t
                | suc n ↦ evict_more fuel (left - suc n) keep (drop_leaves (suc n) leaves t)
              ])
              (evict_more fuel (left - j) keep (drop_leaves j leaves t))))) [
                | zero ↦ inl refl
                | suc n ↦ inr (suc n, refl)
              ]
