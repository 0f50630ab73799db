-- ===== src/Watch/Counted.antt =====
-- crates/server/src/watch.rs: that the table's descriptors and its count are those of its directories.
-- The children prove that the changes of the table keep it.
pub mod Moves
pub mod Turns
pub mod Absent
pub mod Placed
pub mod Armed
pub mod Moving
pub mod Same
pub mod Rechecked
pub mod Applied
pub mod Batches
use jackalopefs.Common.{
  ℕ, suc, ◌+◌, ◌-◌, ◌≤◌, ◌≡◌, inl, inr, refl, sym, subst, ◌∙◌, Bool, Bool-cases, true, false,
  Option, none, some, List, [], ◌∷◌, ◌++◌, arith, ◌==◌, if◌then◌else◌, lookup, insert, erase,
  is_key, IsMap, lookup-insert, lookup-erase_ne, lookup-erase_self, insert-IsMap, erase-IsMap,
}
use jackalopefs.Proto.Message.{FilePath}
use jackalopefs.Watch.Tree.{State, Children, no_more, child, Node, is_watched}
use jackalopefs.Watch.Table.{Table, rm, take_one, child_path, drop_state, drop_children, drop_tree}
use jackalopefs.Watch.Weights.{is_watch, one_watch, weigh, weigh_node}

-- Each descriptor is that of exactly one directory, in the tree or taken out of it for a while: `x` and
-- `n` are what was taken out. `watched` counts them, but for the root, and never went below zero.
pub record IsExact (t : Table) (x : ℕ → ℕ) (n : ℕ) : Type 0 where
  pub ids : IsMap t.by_wd
  pub rooted : one_watch t.root.state ≡ 1
  pub keys : (w : ℕ) → (if is_key w t.by_wd then 1 else 0) ≡ weigh_node (is_watch w) t.root + x w
  pub count : suc t.watched ≡ weigh_node one_watch t.root + n
  pub sound : t.underflow ≡ false

pub IsExact-as :
    (t : Table) (x y : ℕ → ℕ) (n m : ℕ)
    → ((w : ℕ) → x w ≡ y w)
    → n ≡ m
    → IsExact t x n
    → IsExact t y m
IsExact-as t x y n m e same c = record {
  ids = c.ids;
  rooted = c.rooted;
  keys = λ w. omega (arith, c.keys w, e w);
  count = omega (arith, c.count);
  sound = c.sound;
}

is_key-erase :
    (w v : ℕ) (m : List (ℕ × FilePath))
    → IsMap m
    → is_key v (erase w m) ≡ (if v == w then false else is_key v m)
is_key-erase w v m i = elim (Bool-cases (v == w)) [
  | inl e ↦
      let same : v ≡ w = ground arith in
      subst (λ y. is_key y (erase w m) ≡ (if y == w then false else is_key y m)) (sym same)
        (ground (arith, lookup-erase_self w m i))
  | inr e ↦ ground (arith, lookup-erase_ne w v m)
]

-- A watch that the table has is dropped.
record IsDropped (t u : Table) (wd k : ℕ) : Type 0 where
  pub root : u.root ≡ t.root
  pub by_wd : u.by_wd ≡ erase wd t.by_wd
  pub watched : u.watched ≡ k
  pub underflow : u.underflow ≡ t.underflow

drop_state-IsDropped :
    (announce : Bool) (wd k : ℕ) (path : FilePath) (t : Table)
    → is_key wd t.by_wd ≡ true
    → t.watched ≡ suc k
    → IsDropped t (drop_state announce (State.watched wd) path t) wd k
unfolding drop_state rm take_one
drop_state-IsDropped announce wd k path t key some_left = record {
  root = ground arith;
  by_wd = ground arith;
  watched = ground arith;
  underflow = ground arith;
}

dropped-IsExact :
    (t u : Table) (wd k : ℕ) (x : ℕ → ℕ) (n : ℕ)
    → IsDropped t u wd k
    → t.watched ≡ suc k
    → IsExact t (λ w. is_watch w (State.watched wd) + x w) (1 + n)
    → IsExact u x n
unfolding is_watch
dropped-IsExact t u wd k x n d left c = record {
  ids = subst IsMap (sym d.by_wd) (erase-IsMap wd t.by_wd c.ids);
  rooted = subst (λ (r : Node). one_watch r.state ≡ 1) (sym d.root) c.rooted;
  keys = λ w.
      subst (λ m. (if is_key w m then 1 else 0) ≡ weigh_node (is_watch w) u.root + x w)
        (sym d.by_wd)
        (subst
          (λ r. (if is_key w (erase wd t.by_wd) then 1 else 0) ≡ weigh_node (is_watch w) r + x w)
          (sym d.root) (ground (arith, is_key-erase wd w t.by_wd c.ids, c.keys w)));
  count =
      subst (λ r. suc u.watched ≡ weigh_node one_watch r + n) (sym d.root)
        (omega (arith, d.watched, c.count));
  sound = d.underflow ∙ c.sound;
}

pub drop_state-IsExact :
    (announce : Bool) (s : State) (path : FilePath) (t : Table) (x : ℕ → ℕ) (n : ℕ)
    → IsExact t (λ w. is_watch w s + x w) (one_watch s + n)
    → IsExact (drop_state announce s path t) x n
unfolding one_watch is_watch weigh_node
drop_state-IsExact announce (State.unwatchable at) path t x n c =
    unfold drop_state in
    (IsExact-as t (λ w. 0 + x w) x (0 + n) n (λ w. omega arith) (omega arith) c)
drop_state-IsExact announce (State.watched wd) path t x n c =
    let key : is_key wd t.by_wd ≡ true = ground (arith, c.keys wd) in
    let left : t.watched ≡ suc (t.watched - 1) = omega (arith, c.count, c.rooted) in
    dropped-IsExact t (drop_state announce (State.watched wd) path t) wd (t.watched - 1) x n
      (drop_state-IsDropped announce wd (t.watched - 1) path t key left) left c

pub drop_children-IsExact :
    (announce : Bool) (cs : Children) (path : FilePath) (t : Table) (x : ℕ → ℕ) (n : ℕ)
    → IsExact t (λ w. weigh (is_watch w) cs + x w) (weigh one_watch cs + n)
    → IsExact (drop_children announce cs path t) x n
unfolding drop_children weigh
drop_children-IsExact announce no_more path t x n c =
    IsExact-as t (λ w. 0 + x w) x (0 + n) n (λ w. omega arith) (omega arith) c
drop_children-IsExact announce (child y m s below others) path t x n c =
    let p = child_path path y in
    let x2 = λ (w : ℕ). weigh (is_watch w) others + x w in
    let n2 = weigh one_watch others + n in
    let x1 = λ (w : ℕ). is_watch w s + x2 w in
    let c1 =
      IsExact-as t (λ w. is_watch w s + weigh (is_watch w) below + weigh (is_watch w) others + x w)
        (λ w. weigh (is_watch w) below + x1 w) _ (weigh one_watch below + (one_watch s + n2))
        (λ w. omega arith) (omega arith) c in
    let t1 = drop_children announce below p t in
    drop_children-IsExact announce others path (drop_state announce s p t1) x n (
      drop_state-IsExact announce s p t1 x2 n2
        (drop_children-IsExact announce below p t x1 (one_watch s + n2) c1))

-- A tree that was taken out is dropped.
pub drop_tree-IsExact :
    (announce : Bool) (n : Node) (path : FilePath) (t : Table) (x : ℕ → ℕ) (k : ℕ)
    → IsExact t (λ w. weigh_node (is_watch w) n + x w) (weigh_node one_watch n + k)
    → IsExact (drop_tree announce n path t) x k
unfolding drop_tree weigh_node
drop_tree-IsExact announce n path t x k c =
    drop_state-IsExact announce n.state path (drop_children announce n.children path t) x k (
      drop_children-IsExact announce n.children path t (λ w. is_watch w n.state + x w)
        (one_watch n.state + k)
        (IsExact-as t (λ w. weigh_node (is_watch w) n + x w) _ _ _ (λ w. omega arith) (omega arith)
          c))
