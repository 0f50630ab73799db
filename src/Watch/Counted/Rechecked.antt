-- ===== src/Watch/Counted/Rechecked.antt =====
-- crates/server/src/watch.rs: that checking every directory keeps the table counted.
use jackalopefs.Common.{
  ℕ, ◌+◌, ◌≡◌, inl, inr, refl, sym, ap, subst, true, Option-cases, List, [], ◌∷◌, ◌++◌, arith,
}
use jackalopefs.Proto.Message.{FilePath}
use jackalopefs.Watch.Tree.{State, Children, no_more, child, Node}
use jackalopefs.Watch.Table.{Table, rm, drop_tree}
use jackalopefs.Watch.Ops.{add, open_dir, open_child, is_it}
use jackalopefs.Watch.Apply.{find_here, recheck_below, drop_each, with_children, recheck}
use jackalopefs.Watch.Weights.{is_watch, one_watch, weigh, weigh_node}
use jackalopefs.Watch.Counted.{IsExact, IsExact-as, drop_tree-IsExact}
use jackalopefs.Watch.Counted.Moves.{root-IsExact}
use jackalopefs.Watch.Counted.Armed.{Answer-cases}
use jackalopefs.Watch.Counted.Placed.{IsLike, like-IsExact, called-IsExact}
use jackalopefs.Watch.Counted.Same.{recheck_gone, recheck_kept, recheck_below-IsSame}

find_here-IsLike :
    (s : State) (name : List ℕ) (parent : ℕ) (t : Table) → IsLike t (find_here s name parent t).0
unfolding find_here open_child is_it add rm
find_here-IsLike s name parent t = record {
  root = ground arith;
  by_wd = ground arith;
  watched = ground arith;
  underflow = ground arith;
}

AreCounted : (ℕ → ℕ) → ℕ → Table × Children → Type 0
AreCounted x n (u, cs) = IsExact u (λ w. weigh (is_watch w) cs + x w) (weigh one_watch cs + n)

recheck_below-AreCounted :
    (cs : Children) (parent : ℕ) (names : FilePath) (t : Table) (x : ℕ → ℕ) (n : ℕ)
    → AreCounted x n (t, cs)
    → AreCounted x n (recheck_below cs parent names t)
unfolding AreCounted weigh weigh_node
recheck_below-AreCounted no_more parent names t x n c = unfold recheck_below in c
recheck_below-AreCounted (child y m s below others) parent names t x n c =
    let u = (find_here s y parent t).0 in
    let cu = like-IsExact t u _ _ (find_here-IsLike s y parent t) c in
    let here = names ++ y ∷ [] in
    elim (Option-cases (find_here s y parent t).1) [
      | inl e ↦
          let d : Node = record { mark = m; state = s; children = below } in
          let xo = λ (w : ℕ). weigh (is_watch w) others + x w in
          let no = weigh one_watch others + n in
          subst (AreCounted x n) (sym (recheck_gone y m s below others parent names t e)) (
            recheck_below-AreCounted others parent names (drop_tree true d here u) x n (
              drop_tree-IsExact true d here u xo no (
                IsExact-as u _ (λ w. weigh_node (is_watch w) d + xo w) _
                  (weigh_node one_watch d + no) (λ w. omega arith) (omega arith) cu)))
      | inr (dir, e) ↦
          let (v, below') = recheck_below below dir here u in
          let (z, others') = recheck_below others parent names v in
          let xb = λ (w : ℕ). is_watch w s + (weigh (is_watch w) others + x w) in
          let nb = one_watch s + (weigh one_watch others + n) in
          let xo = λ (w : ℕ). is_watch w s + (weigh (is_watch w) below' + x w) in
          let no = one_watch s + (weigh one_watch below' + n) in
          let c1 : IsExact v (λ w. weigh (is_watch w) below' + xb w) (weigh one_watch below' + nb) =
            recheck_below-AreCounted below dir here u xb nb (
              IsExact-as u _ (λ w. weigh (is_watch w) below + xb w) _ (weigh one_watch below + nb)
                (λ w. omega arith) (omega arith) cu) in
          let c2 : IsExact z (λ w. weigh (is_watch w) others' + xo w)
              (weigh one_watch others' + no) =
            recheck_below-AreCounted others parent names v xo no (
              IsExact-as v _ (λ w. weigh (is_watch w) others + xo w) _ (weigh one_watch others + no)
                (λ w. omega arith) (omega arith) c1) in
          subst (AreCounted x n) (sym (recheck_kept y m s below others parent dir names t e))
            (IsExact-as z _ _ _ _ (λ w. omega arith) (omega arith) c2)
    ]

-- The root's children are taken out, and put back as they are found.
emptied-IsExact :
    (t : Table)
    → IsExact t (λ w. 0) 0
    → AreCounted (λ w. 0) 0 (with_children t no_more, t.root.children)
unfolding AreCounted with_children weigh_node weigh
emptied-IsExact t c =
    root-IsExact t (record t.root { children = no_more }) (λ w. 0) _ 0 _ refl (λ w. omega arith)
      (omega arith) c

refilled-IsExact :
    (t u : Table) (cs : Children)
    → u.root ≡ record t.root { children = no_more }
    → AreCounted (λ w. 0) 0 (u, cs)
    → IsExact (with_children u cs) (λ w. 0) 0
unfolding AreCounted with_children weigh_node weigh
refilled-IsExact t u cs e c =
    let empty : u.root.children ≡ no_more = ap (λ (r : Node). r.children) e in
    let none_below = λ (f : State → ℕ). ap (weigh f) empty in
    root-IsExact u (record u.root { children = cs }) _ (λ w. 0) _ 0 refl
      (λ w. omega (arith, none_below (is_watch w))) (omega (arith, none_below one_watch)) c

drop_each-IsExact :
    (cs : Children) (t : Table)
    → AreCounted (λ w. 0) 0 (t, cs)
    → IsExact (drop_each cs t) (λ w. 0) 0
unfolding AreCounted drop_each weigh weigh_node
drop_each-IsExact no_more t c = c
drop_each-IsExact (child y m s below others) t c =
    let d : Node = record { mark = m; state = s; children = below } in
    drop_each-IsExact others (drop_tree true d (y ∷ []) t) (
      drop_tree-IsExact true d (y ∷ []) t _ _
        (IsExact-as t _ _ _ _ (λ w. omega arith) (omega arith) c))

pub recheck-IsExact : (t : Table) → IsExact t (λ w. 0) 0 → IsExact (recheck t) (λ w. 0) 0
unfolding recheck open_dir AreCounted
recheck-IsExact t c =
    let cs = t.root.children in
    let e = with_children t no_more in
    let u = (open_dir e []).0 in
    let ce : IsExact e (λ w. weigh (is_watch w) cs + 0) (weigh one_watch cs + 0) =
      emptied-IsExact t c in
    let cu : IsExact u (λ w. weigh (is_watch w) cs + 0) (weigh one_watch cs + 0) =
      called-IsExact e _ _ _ ce in
    elim (Answer-cases (e.marks.open_dir e.calls [])) [
      | inr (errno, ae) ↦
          subst (λ v. IsExact v (λ w. 0) 0) (ground arith) (drop_each-IsExact cs u cu)
      | inl (root, ae) ↦
          let (v, kept) = recheck_below cs root [] u in
          subst (λ v. IsExact v (λ w. 0) 0) (ground arith)
            (refilled-IsExact t v kept (recheck_below-IsSame cs root [] u).root
              (recheck_below-AreCounted cs root [] u (λ w. 0) 0 cu))
    ]
