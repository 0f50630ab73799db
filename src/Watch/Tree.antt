-- ===== src/Watch/Tree.antt =====
-- crates/server/src/watch.rs: `Node` and its children, below the export's root. A hash map of children is
-- a list of them, with what each holds below it. Marks are shared, so a node names its mark's place.
use jackalopefs.Common.{
  ℕ, Bool, true, false, Option, none, some, List, [], ◌∷◌, if◌then◌else◌, ◌>>=◌,
}
use jackalopefs.Proto.Owners.Acl.{same_bytes}
use jackalopefs.Proto.Path.{split_last}
use jackalopefs.Proto.Message.{FilePath}

pub data State : Type 0 where
  watched : (wd : ℕ) → State
  unwatchable : (retry_at : ℕ) → State

pub data Children : Type 0 where
  no_more : Children
  child :
      (name : List ℕ) (mark : ℕ) (state : State) (below : Children) (others : Children) → Children

pub record Node : Type 0 where
  pub mark : ℕ
  pub state : State
  pub children : Children

unfoldable pub is_watched : State → Bool
is_watched (State.watched wd) = true
is_watched (State.unwatchable retry_at) = false

-- `children.get`, `children.remove` and `children.insert`.
unfoldable pub find_child : List ℕ → Children → Option Node
unfolding same_bytes
find_child name no_more = none
find_child name (child x m s below others) =
    if same_bytes name x
    then some (record { mark = m; state = s; children = below })
    else find_child name others

unfoldable pub remove_child : List ℕ → Children → Children
unfolding same_bytes
remove_child name no_more = no_more
remove_child name (child x m s below others) =
    let rest = remove_child name others in
    if same_bytes name x then others else child x m s below rest

unfoldable pub insert_child : List ℕ → Node → Children → Children
unfolding same_bytes
insert_child name n no_more = child name n.mark n.state n.children no_more
insert_child name n (child x m s below others) =
    let rest = insert_child name n others in
    if same_bytes name x then child x n.mark n.state n.children others else child x m s below rest

-- `Table::node`.
unfoldable pub node_at : Node → FilePath → Option Node
unfolding find_child
node_at n [] = some n
node_at n (name ∷ names) = do c ← find_child name n.children; node_at c names

-- A change through `Table::node_mut`, of the children of the node there.
unfoldable pub change_at : Node → FilePath → (Children → Children) → Node
unfolding find_child insert_child
change_at n [] f = record n { children = f n.children }
change_at n (name ∷ names) f = elim (find_child name n.children) [
  | none ↦ n
  | some c ↦ record n { children = insert_child name (change_at c names f) n.children }
]

-- `Table::detach`, with what is left.
unfoldable pub detach : Node → FilePath → Option (Node × Node)
unfolding node_at find_child change_at remove_child split_last
detach root path = do
  (parent, name) ← split_last path
  p ← node_at root parent
  n ← find_child name p.children
  some (n, change_at root parent (remove_child name))
