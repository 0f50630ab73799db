-- ===== src/Watch/Counted/Same.antt =====
-- crates/server/src/watch.rs: that dropping what was taken out leaves the tree, and the table's end.
use jackalopefs.Common.{
  ℕ, ◌≡◌, refl, sym, subst, inl, inr, ◌∙◌, Bool, true, Option-cases, none, some, List, [], ◌∷◌,
  ◌++◌, arith,
}
use jackalopefs.Proto.Message.{FilePath}
use jackalopefs.Watch.Tree.{State, Children, no_more, child, Node}
use jackalopefs.Watch.Table.{Table, rm, take_one, child_path, drop_state, drop_children, drop_tree}
use jackalopefs.Watch.Ops.{open_child, add, is_it}
use jackalopefs.Watch.Apply.{Moving, find_here, recheck_below, drop_moving}

pub record IsSame (t u : Table) : Type 0 where
  pub root : u.root ≡ t.root
  pub dead : u.dead ≡ t.dead

IsSame-trans : (t u v : Table) → IsSame t u → IsSame u v → IsSame t v
IsSame-trans t u v a b = record { root = b.root ∙ a.root; dead = b.dead ∙ a.dead }

drop_state-IsSame :
    (announce : Bool) (s : State) (path : FilePath) (t : Table)
    → IsSame t (drop_state announce s path t)
unfolding drop_state rm take_one
drop_state-IsSame announce s path t = record { root = ground arith; dead = ground arith }

drop_children-IsSame :
    (announce : Bool) (cs : Children) (path : FilePath) (t : Table)
    → IsSame t (drop_children announce cs path t)
unfolding drop_children
drop_children-IsSame announce no_more path t = record { root = refl; dead = refl }
drop_children-IsSame announce (child y m s below others) path t =
    let p = child_path path y in
    let u = drop_children announce below p t in
    let v = drop_state announce s p u in
    IsSame-trans t v _
      (IsSame-trans t u v (drop_children-IsSame announce below p t)
        (drop_state-IsSame announce s p u))
      (drop_children-IsSame announce others path v)

pub drop_tree-IsSame :
    (announce : Bool) (n : Node) (path : FilePath) (t : Table)
    → IsSame t (drop_tree announce n path t)
unfolding drop_tree
drop_tree-IsSame announce n path t =
    let u = drop_children announce n.children path t in
    IsSame-trans t u _ (drop_children-IsSame announce n.children path t)
      (drop_state-IsSame announce n.state path u)

pub drop_moving-IsSame : (m : Moving) (t : Table) → IsSame t (drop_moving m t)
unfolding drop_moving
drop_moving-IsSame [] t = record { root = refl; dead = refl }
drop_moving-IsSame ((k, (path, n)) ∷ m) t =
    IsSame-trans t (drop_tree true n path t) _ (drop_tree-IsSame true n path t)
      (drop_moving-IsSame m (drop_tree true n path t))

pub recheck_gone :
    (y : List ℕ) (m : ℕ) (s : State) (below others : Children) (parent : ℕ) (names : FilePath)
    (t : Table)
    → (find_here s y parent t).1 ≡ none
    → recheck_below (child y m s below others) parent names t
      ≡ recheck_below others parent names (
          drop_tree true
            (record { mark = m; state = s; children = below })
            (names ++ y ∷ [])
            (find_here s y parent t).0)
unfolding recheck_below
recheck_gone y m s below others parent names t e = ground arith

pub recheck_kept :
    (y : List ℕ) (m : ℕ) (s : State) (below others : Children) (parent dir : ℕ) (names : FilePath)
    (t : Table)
    → (find_here s y parent t).1 ≡ some dir
    → let (v, below') = recheck_below below dir (names ++ y ∷ []) (find_here s y parent t).0 in
      let (w, others') = recheck_below others parent names v in
      recheck_below (child y m s below others) parent names t ≡ (w, child y m s below' others')
unfolding recheck_below
recheck_kept y m s below others parent dir names t e = ground arith

find_here-IsSame :
    (s : State) (name : List ℕ) (parent : ℕ) (t : Table) → IsSame t (find_here s name parent t).0
unfolding find_here open_child is_it add rm
find_here-IsSame s name parent t = record { root = ground arith; dead = ground arith }

pub recheck_below-IsSame :
    (cs : Children) (parent : ℕ) (names : FilePath) (t : Table)
    → IsSame t (recheck_below cs parent names t).0
recheck_below-IsSame no_more parent names t =
    unfold recheck_below in (record { root = refl; dead = refl })
recheck_below-IsSame (child y m s below others) parent names t =
    let here = names ++ y ∷ [] in
    let u = (find_here s y parent t).0 in
    let tu = find_here-IsSame s y parent t in
    elim (Option-cases (find_here s y parent t).1) [
      | inl e ↦
          let d : Node = record { mark = m; state = s; children = below } in
          let v = drop_tree true d here u in
          subst (λ (r : Table × Children). IsSame t r.0)
            (sym (recheck_gone y m s below others parent names t e))
            (IsSame-trans t v _ (IsSame-trans t u v tu (drop_tree-IsSame true d here u))
              (recheck_below-IsSame others parent names v))
      | inr (dir, e) ↦
          let v = (recheck_below below dir here u).0 in
          subst (λ (r : Table × Children). IsSame t r.0)
            (sym (recheck_kept y m s below others parent dir names t e))
            (IsSame-trans t v _ (IsSame-trans t u v tu (recheck_below-IsSame below dir here u))
              (recheck_below-IsSame others parent names v))
    ]
