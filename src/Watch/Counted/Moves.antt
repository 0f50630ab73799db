-- ===== src/Watch/Counted/Moves.antt =====
-- crates/server/src/watch.rs: that moving and dropping directories keeps the table counted.
use jackalopefs.Common.{
  ℕ, ◌+◌, ◌≡◌, ◌≢◌, inl, inr, refl, sym, subst, Bool, true, Option-cases, none, some, List, arith,
  lookup-insert, insert-IsMap,
}
use jackalopefs.Proto.Path.{join, split_last}
use jackalopefs.Proto.Message.{FilePath}
use jackalopefs.Watch.Tree.{
  State, Children, no_more, child, Node, find_child, insert_child, node_at, change_at, detach,
}
use jackalopefs.Watch.Table.{
  Table, drop_tree, rekey_state, rekey_children, rekey, put, reroot, drop_at,
}
use jackalopefs.Watch.Weights.{
  is_watch, one_watch, weigh, weigh_node, weigh_found, weigh-insert_child, weigh_node-change_at,
  change_at-state, weigh_node-detach, detach-state,
}
use jackalopefs.Watch.Counted.{IsExact, IsExact-as, drop_tree-IsExact}

-- A tree in the table, in place of the one there.
abbrev with_root : Table → Node → Table
with_root t r = record t { root = r }

pub root-IsExact :
    (t : Table) (r : Node) (x y : ℕ → ℕ) (n m : ℕ)
    → r.state ≡ t.root.state
    → ((w : ℕ) → weigh_node (is_watch w) r + y w ≡ weigh_node (is_watch w) t.root + x w)
    → weigh_node one_watch r + m ≡ weigh_node one_watch t.root + n
    → IsExact t x n
    → IsExact (with_root t r) y m
root-IsExact t r x y n m s e same c = record {
  ids = c.ids;
  rooted = subst (λ z. one_watch z ≡ 1) (sym s) c.rooted;
  keys = λ w. omega (arith, c.keys w, e w);
  count = omega (arith, c.count);
  sound = c.sound;
}

pub detach-IsExact :
    (t : Table) (n r : Node) (path : FilePath) (x : ℕ → ℕ) (k : ℕ)
    → detach t.root path ≡ some (n, r)
    → IsExact t x k
    → IsExact (with_root t r) (λ w. weigh_node (is_watch w) n + x w) (weigh_node one_watch n + k)
detach-IsExact t n r path x k e c =
    root-IsExact t r x (λ w. weigh_node (is_watch w) n + x w) k (weigh_node one_watch n + k)
      (detach-state t.root n r path e)
      (λ w. omega (arith, weigh_node-detach (is_watch w) t.root n r path e))
      (omega (arith, weigh_node-detach one_watch t.root n r path e)) c

pub drop_at-IsExact :
    (announce : Bool) (path : FilePath) (t : Table) (x : ℕ → ℕ) (k : ℕ)
    → IsExact t x k
    → IsExact (drop_at announce path t) x k
unfolding drop_at
drop_at-IsExact announce path t x k c = elim (Option-cases (detach t.root path)) [
  | inl e ↦ subst (λ u. IsExact u x k) (ground arith) c
  | inr ((n, r), e) ↦
      subst (λ u. IsExact u x k) (ground arith)
        (drop_tree-IsExact announce n path (with_root t r) x k (detach-IsExact t n r path x k e c))
]

rekey_state-IsExact :
    (s : State) (path : FilePath) (t : Table) (x : ℕ → ℕ) (n : ℕ)
    → IsExact t (λ w. is_watch w s + x w) n
    → IsExact (rekey_state s path t) (λ w. is_watch w s + x w) n
unfolding rekey_state is_watch
rekey_state-IsExact (State.unwatchable at) path t x n c = c
rekey_state-IsExact (State.watched wd) path t x n c = record {
  ids = insert-IsMap wd path t.by_wd c.ids;
  rooted = c.rooted;
  keys = λ w. ground (arith, c.keys w, lookup-insert wd w path t.by_wd);
  count = c.count;
  sound = c.sound;
}

rekey_long :
    (y : List ℕ) (m : ℕ) (s : State) (below others : Children) (path : FilePath) (t : Table)
    → join path y ≡ none
    → rekey_children (child y m s below others) path t
      ≡ rekey_children others path
          (drop_tree true (record { mark = m; state = s; children = below }) path t)
unfolding rekey_children
rekey_long y m s below others path t e = ground arith

-- What `rekey_children` does to a child that fits.
rekey_fits :
    (y : List ℕ) (m : ℕ) (s : State) (below others : Children) (path p : FilePath) (t : Table)
    → join path y ≡ some p
    → let (t1, below') = rekey_children below p (rekey_state s p t) in
      let (t2, others') = rekey_children others path t1 in
      rekey_children (child y m s below others) path t ≡ (t2, child y m s below' others')
unfolding rekey_children
rekey_fits y m s below others path p t e = ground arith

AreCounted : (ℕ → ℕ) → ℕ → Table × Children → Type 0
AreCounted x n (u, cs) = IsExact u (λ w. weigh (is_watch w) cs + x w) (weigh one_watch cs + n)

rekey_children-IsExact :
    (cs : Children) (path : FilePath) (t : Table) (x : ℕ → ℕ) (n : ℕ)
    → IsExact t (λ w. weigh (is_watch w) cs + x w) (weigh one_watch cs + n)
    → AreCounted x n (rekey_children cs path t)
unfolding AreCounted weigh weigh_node
rekey_children-IsExact no_more path t x n c = unfold rekey_children in c
rekey_children-IsExact (child y m s below others) path t x n c = elim (Option-cases (join path y)) [
  | inl e ↦
      let d : Node = record { mark = m; state = s; children = below } in
      let xo = λ (w : ℕ). weigh (is_watch w) others + x w in
      let no = weigh one_watch others + n in
      subst (AreCounted x n) (sym (rekey_long y m s below others path t e)) (
        rekey_children-IsExact others path (drop_tree true d path t) x n (
          drop_tree-IsExact true d path t xo no (
            IsExact-as t _ (λ w. weigh_node (is_watch w) d + xo w) _ (weigh_node one_watch d + no)
              (λ w. omega arith) (omega arith) c)))
  | inr (p, e) ↦
      let t0 = rekey_state s p t in
      let (t1, below') = rekey_children below p t0 in
      let (t2, others') = rekey_children others path t1 in
      let xb = λ (w : ℕ). is_watch w s + (weigh (is_watch w) others + x w) in
      let nb = one_watch s + (weigh one_watch others + n) in
      let xo = λ (w : ℕ). is_watch w s + (weigh (is_watch w) below' + x w) in
      let no = one_watch s + (weigh one_watch below' + n) in
      let c0 =
        rekey_state-IsExact s p t
          (λ w. weigh (is_watch w) below + (weigh (is_watch w) others + x w))
          (weigh one_watch below + nb) (IsExact-as t _ _ _ _ (λ w. omega arith) (omega arith) c) in
      let c1 : IsExact t1 (λ w. weigh (is_watch w) below' + xb w) (weigh one_watch below' + nb) =
        rekey_children-IsExact below p t0 xb nb (
          IsExact-as t0 _ (λ w. weigh (is_watch w) below + xb w) _ (weigh one_watch below + nb)
            (λ w. omega arith) refl c0) in
      let c2 : IsExact t2 (λ w. weigh (is_watch w) others' + xo w) (weigh one_watch others' + no) =
        rekey_children-IsExact others path t1 xo no (
          IsExact-as t1 _ (λ w. weigh (is_watch w) others + xo w) _ (weigh one_watch others + no)
            (λ w. omega arith) (omega arith) c1) in
      subst (AreCounted x n) (sym (rekey_fits y m s below others path p t e))
        (IsExact-as t2 _ _ _ _ (λ w. omega arith) (omega arith) c2)
]

pub rekey-IsExact :
    (n : Node) (path : FilePath) (t : Table) (x : ℕ → ℕ) (k : ℕ)
    → IsExact t (λ w. weigh_node (is_watch w) n + x w) (weigh_node one_watch n + k)
    → let (u, moved) = rekey n path t in
      IsExact u (λ w. weigh_node (is_watch w) moved + x w) (weigh_node one_watch moved + k)
unfolding rekey weigh_node AreCounted
rekey-IsExact n path t x k c =
    let t0 = rekey_state n.state path t in
    let xs = λ (w : ℕ). is_watch w n.state + x w in
    let ks = one_watch n.state + k in
    let c0 =
      rekey_state-IsExact n.state path t (λ w. weigh (is_watch w) n.children + x w)
        (weigh one_watch n.children + ks)
        (IsExact-as t _ _ _ _ (λ w. omega arith) (omega arith) c) in
    let c1 = rekey_children-IsExact n.children path t0 xs ks (
      IsExact-as t0 _ (λ w. weigh (is_watch w) n.children + xs w) _ _ (λ w. omega arith) refl c0) in
    IsExact-as (rekey_children n.children path t0).0 _ _ _ _ (λ w. omega arith) (omega arith) c1

-- A path with a last name is put in, and what was there is dropped.
pub put-IsExact :
    (path : FilePath) (n : Node) (t : Table) (x : ℕ → ℕ) (k : ℕ)
    → split_last path ≢ none
    → IsExact t (λ w. weigh_node (is_watch w) n + x w) (weigh_node one_watch n + k)
    → IsExact (put path n t) x k
unfolding put weigh_found
put-IsExact path n t x k ne c = elim (Option-cases (split_last path)) [
  | inl e ↦ absurd (ne e)
  | inr ((parent, name), split) ↦ elim (Option-cases (node_at t.root parent)) [
    | inl e ↦ subst (λ u. IsExact u x k) (ground arith) (drop_tree-IsExact true n path t x k c)
    | inr (p, at) ↦
        let old = find_child name p.children in
        let grown =
          λ (f : State → ℕ). weigh_node-change_at f t.root p parent (insert_child name n) at in
        let added = λ (f : State → ℕ). weigh-insert_child f name n p.children in
        let r = change_at t.root parent (insert_child name n) in
        let c1 =
          root-IsExact t r _ (λ w. weigh_found (is_watch w) old + x w) _
            (weigh_found one_watch old + k) (change_at-state t.root parent (insert_child name n))
            (λ w. omega (arith, grown (is_watch w), added (is_watch w)))
            (omega (arith, grown one_watch, added one_watch)) c in
        elim (Option-cases old) [
          | inl e ↦
              subst (λ u. IsExact u x k) (ground arith)
                (IsExact-as (with_root t r) _ x _ k (λ w. ground (arith, e)) (ground (arith, e)) c1)
          | inr (d, e) ↦
              subst (λ u. IsExact u x k) (ground arith)
                (drop_tree-IsExact true d path (with_root t r) x k (
                  IsExact-as (with_root t r) _ (λ w. weigh_node (is_watch w) d + x w) _
                    (weigh_node one_watch d + k) (λ w. ground (arith, e)) (ground (arith, e)) c1))
        ]
  ]
]

pub reroot-IsExact :
    (from to : FilePath) (t : Table) (x : ℕ → ℕ) (k : ℕ)
    → split_last to ≢ none
    → IsExact t x k
    → IsExact (reroot from to t).0 x k
unfolding reroot
reroot-IsExact from to t x k ne c = elim (Option-cases (detach t.root from)) [
  | inl e ↦ subst (λ u. IsExact u x k) (ground arith) c
  | inr ((n, r), e) ↦
      let (u, moved) = rekey n to (with_root t r) in
      subst (λ u. IsExact u x k) (ground arith)
        (put-IsExact to moved u x k ne
          (rekey-IsExact n to (with_root t r) x k (detach-IsExact t n r from x k e c)))
]
