-- ===== src/Watch/Weights.antt =====
-- crates/server/src/watch.rs: sums over a tree of directories, and what its changes do to them.
use jackalopefs.Common.{
  ℕ, ◌+◌, ◌≡◌, refl, sym, ap, subst, Option, none, some, some-injective, List, [], ◌∷◌, arith, ◌==◌,
  if◌then◌else◌, >>=-eq-some,
}
use jackalopefs.Proto.Path.{split_last}
use jackalopefs.Proto.Message.{FilePath}
use jackalopefs.Watch.Tree.{
  State, Children, no_more, child, Node, find_child, remove_child, insert_child, node_at, change_at,
  detach,
}

-- 1 if the state is this watch, and if it is any.
unfoldable pub is_watch : ℕ → State → ℕ
is_watch w (State.watched v) = if v == w then 1 else 0
is_watch w (State.unwatchable at) = 0

unfoldable pub one_watch : State → ℕ
one_watch (State.watched v) = 1
one_watch (State.unwatchable at) = 0

unfoldable pub weigh : (State → ℕ) → Children → ℕ
weigh f no_more = 0
weigh f (child x m s below others) = f s + weigh f below + weigh f others

unfoldable pub weigh_node : (State → ℕ) → Node → ℕ
unfolding weigh
weigh_node f n = f n.state + weigh f n.children

unfoldable pub weigh_found : (State → ℕ) → Option Node → ℕ
unfolding weigh_node
weigh_found f none = 0
weigh_found f (some n) = weigh_node f n

pub weigh-remove_child :
    (f : State → ℕ) (name : List ℕ) (cs : Children)
    → weigh f (remove_child name cs) + weigh_found f (find_child name cs) ≡ weigh f cs
unfolding weigh weigh_found remove_child find_child weigh_node
weigh-remove_child f name no_more = refl
weigh-remove_child f name (child x m s below others) =
    ground (arith, weigh-remove_child f name others)

pub weigh-insert_child :
    (f : State → ℕ) (name : List ℕ) (n : Node) (cs : Children)
    → weigh f (insert_child name n cs) + weigh_found f (find_child name cs)
      ≡ weigh f cs + weigh_node f n
unfolding weigh weigh_found insert_child find_child weigh_node
weigh-insert_child f name n no_more = omega arith
weigh-insert_child f name n (child x m s below others) =
    ground (arith, weigh-insert_child f name n others)

change_at-found :
    (n c : Node) (name : List ℕ) (names : FilePath) (g : Children → Children)
    → find_child name n.children ≡ some c
    → change_at n (name ∷ names) g
      ≡ record n { children = insert_child name (change_at c names g) n.children }
unfolding change_at
change_at-found n c name names g e = ground arith

weigh_node-replaced :
    (f : State → ℕ) (n c d : Node) (name : List ℕ)
    → find_child name n.children ≡ some c
    → weigh_node f (record n { children = insert_child name d n.children }) + weigh_node f c
      ≡ weigh_node f n + weigh_node f d
unfolding weigh_node weigh_found
weigh_node-replaced f n c d name e = ground (arith, weigh-insert_child f name d n.children)

-- What a change below a node does to its sum.
pub weigh_node-change_at :
    (f : State → ℕ) (n p : Node) (path : FilePath) (g : Children → Children)
    → node_at n path ≡ some p
    → weigh_node f (change_at n path g) + weigh f p.children
      ≡ weigh_node f n + weigh f (g p.children)
unfolding node_at
weigh_node-change_at f n p [] g e =
    let same : n ≡ p = some-injective _ _ e in
    subst
      (λ (x : Node).
        weigh_node f (change_at n [] g) + weigh f x.children
        ≡ weigh_node f n + weigh f (g x.children))
      same (unfold weigh_node change_at in (omega arith))
weigh_node-change_at f n p (name ∷ names) g e =
    let (c, found, rest) = >>=-eq-some (find_child name n.children) _ e in
    let below = weigh_node-change_at f c p names g rest in
    let step = weigh_node-replaced f n c (change_at c names g) name found in
    subst (λ x. weigh_node f x + weigh f p.children ≡ weigh_node f n + weigh f (g p.children))
      (sym (change_at-found n c name names g found)) (omega (arith, below, step))

pub change_at-state :
    (n : Node) (path : FilePath) (g : Children → Children) → (change_at n path g).state ≡ n.state
unfolding change_at
change_at-state n [] g = refl
change_at-state n (name ∷ names) g = ground arith

-- Where a directory was detached from.
pub record IsDetached (root n left : Node) (path : FilePath) : Type 0 where
  pub parent : FilePath
  pub name : List ℕ
  pub above : Node
  pub split : split_last path ≡ some (parent, name)
  pub at : node_at root parent ≡ some above
  pub found : find_child name above.children ≡ some n
  pub rest : left ≡ change_at root parent (remove_child name)

pub detach-IsDetached :
    (root n left : Node) (path : FilePath)
    → detach root path ≡ some (n, left)
    → IsDetached root n left path
unfolding detach
detach-IsDetached root n left path e =
    let ((parent, name), split, rest) = >>=-eq-some (split_last path) _ e in
    let (p, at, rest2) = >>=-eq-some (node_at root parent) _ rest in
    let (c, found, done) = >>=-eq-some (find_child name p.children) _ rest2 in
    let same = some-injective _ _ done in
    record {
      parent = parent;
      name = name;
      above = p;
      split = split;
      at = at;
      found = subst (λ x. find_child name p.children ≡ some x) (ap (λ x. x.0) same) found;
      rest = sym (ap (λ x. x.1) same);
    }

pub weigh_node-detach :
    (f : State → ℕ) (root n left : Node) (path : FilePath)
    → detach root path ≡ some (n, left)
    → weigh_node f left + weigh_node f n ≡ weigh_node f root
unfolding weigh_found
weigh_node-detach f root n left path e =
    let d = detach-IsDetached root n left path e in
    let gone : weigh f (remove_child d.name d.above.children) + weigh_node f n
        ≡ weigh f d.above.children =
      ground (arith, weigh-remove_child f d.name d.above.children, d.found) in
    subst (λ x. weigh_node f x + weigh_node f n ≡ weigh_node f root) (sym d.rest)
      (omega (arith, gone, weigh_node-change_at f root d.above d.parent (remove_child d.name) d.at))

pub detach-state :
    (root n left : Node) (path : FilePath)
    → detach root path ≡ some (n, left)
    → left.state ≡ root.state
detach-state root n left path e =
    let d = detach-IsDetached root n left path e in
    subst (λ (x : Node). x.state ≡ root.state) (sym d.rest)
      (change_at-state root d.parent (remove_child d.name))
