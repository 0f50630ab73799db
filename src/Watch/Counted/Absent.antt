-- ===== src/Watch/Counted/Absent.antt =====
-- crates/server/src/watch.rs: that making room brings no descriptor into the table.
use jackalopefs.Common.{
  ℕ, zero, suc, ◌-◌, ◌≡◌, inl, inr, sym, subst, Bool, true, Option-cases, none, List, [], ◌∷◌,
  arith, lookup, lookup-erase_ne,
}
use jackalopefs.Proto.Message.{FilePath}
use jackalopefs.Watch.Tree.{State, Children, no_more, child, Node, detach}
use jackalopefs.Watch.Table.{
  Table, rm, take_one, child_path, drop_state, drop_children, drop_tree, drop_at,
}
use jackalopefs.Watch.Ops.{budget_at, drop_leaves, leaves_of, sort_leaves, evict_more, evict}
use jackalopefs.Watch.Counted.Turns.{evict_more_turn}

-- The table has no such descriptor.
abbrev pub IsAbsent : ℕ → Table → Type 0
IsAbsent w t = lookup w t.by_wd ≡ none

drop_state-IsAbsent :
    (w : ℕ) (announce : Bool) (s : State) (path : FilePath) (t : Table)
    → IsAbsent w t
    → IsAbsent w (drop_state announce s path t)
unfolding drop_state rm take_one
drop_state-IsAbsent w announce (State.unwatchable at) path t a = a
drop_state-IsAbsent w announce (State.watched wd) path t a =
    ground (arith, lookup-erase_ne wd w t.by_wd)

drop_children-IsAbsent :
    (w : ℕ) (announce : Bool) (cs : Children) (path : FilePath) (t : Table)
    → IsAbsent w t
    → IsAbsent w (drop_children announce cs path t)
unfolding drop_children
drop_children-IsAbsent w announce no_more path t a = a
drop_children-IsAbsent w announce (child y m s below others) path t a =
    let p = child_path path y in
    let u = drop_children announce below p t in
    drop_children-IsAbsent w announce others path (drop_state announce s p u)
      (drop_state-IsAbsent w announce s p u (drop_children-IsAbsent w announce below p t a))

drop_tree-IsAbsent :
    (w : ℕ) (announce : Bool) (n : Node) (path : FilePath) (t : Table)
    → IsAbsent w t
    → IsAbsent w (drop_tree announce n path t)
unfolding drop_tree
drop_tree-IsAbsent w announce n path t a =
    drop_state-IsAbsent w announce n.state path (drop_children announce n.children path t)
      (drop_children-IsAbsent w announce n.children path t a)

drop_at-IsAbsent :
    (w : ℕ) (announce : Bool) (path : FilePath) (t : Table)
    → IsAbsent w t
    → IsAbsent w (drop_at announce path t)
unfolding drop_at
drop_at-IsAbsent w announce path t a = elim (Option-cases (detach t.root path)) [
  | inl e ↦
      let same : drop_at announce path t ≡ t = ground arith in
      subst (λ (u : Table). IsAbsent w u) (sym same) a
  | inr ((n, r), e) ↦
      let same : drop_at announce path t ≡ drop_tree announce n path (record t { root = r }) =
        ground arith in
      subst (λ (u : Table). IsAbsent w u) (sym same)
        (drop_tree-IsAbsent w announce n path (record t { root = r }) a)
]

drop_leaves-IsAbsent :
    (w k : ℕ) (ls : List (ℕ × FilePath)) (t : Table)
    → IsAbsent w t
    → IsAbsent w (drop_leaves k ls t)
unfolding drop_leaves
drop_leaves-IsAbsent w zero ls t a = a
drop_leaves-IsAbsent w (suc k) [] t a = a
drop_leaves-IsAbsent w (suc k) ((u, names) ∷ ls) t a =
    drop_leaves-IsAbsent w k ls (drop_at true names t) (drop_at-IsAbsent w true names t a)

evict_more-IsAbsent :
    (w fuel left : ℕ) (keep : FilePath) (t : Table)
    → IsAbsent w t
    → IsAbsent w (evict_more fuel left keep t)
evict_more-IsAbsent w zero left keep t a = unfold evict_more in a
evict_more-IsAbsent w (suc fuel) left keep t a =
    let leaves = sort_leaves (leaves_of t.stamps keep [] t.root.children) in
    elim (evict_more_turn fuel left keep t) [
      | inl e ↦ subst (λ (u : Table). IsAbsent w u) (sym e) a
      | inr (k, e) ↦
          subst (λ (u : Table). IsAbsent w u) (sym e)
            (evict_more-IsAbsent w fuel (left - k) keep (drop_leaves k leaves t)
              (drop_leaves-IsAbsent w k leaves t a))
    ]

pub evict-IsAbsent :
    (w : ℕ) (keep : FilePath) (now : ℕ) (t : Table) → IsAbsent w t → IsAbsent w (evict keep now t)
unfolding evict budget_at
evict-IsAbsent w keep now t a =
    let u = (budget_at now t).0 in
    evict_more-IsAbsent w _ _ keep (record u { round = suc u.round }) (ground (arith, a))
