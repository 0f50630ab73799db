-- ===== src/Nodes/Kept.antt =====
-- crates/client/src/inodes.rs: what is true of the table of nodes, and of each node. The children prove
-- that the changes of the table keep it.
pub mod Changes
pub mod Names
pub mod Files
pub mod Forgets
use jackalopefs.Common.{
  ℕ, ◌<◌, ◌≡◌, ◌≢◌, Bool, true, Option, none, some, List, [], ◌>>=◌, lookup, is_key, IsMap,
}
use jackalopefs.Nodes.Table.{Node, NodeTable, KeyNode, root, is_empty}
use jackalopefs.Nodes.Links.{IsLinked}

-- A node but the root is of a known file, and flagged exactly when it has no alias left; the root has
-- none.
pub record IsNode (id : ℕ) (n : Node) : Type 0 where
  pub has_key : id ≢ root → n.key ≢ none
  pub counted : 0 < n.lookup_count
  pub flag : id ≢ root → n.unlinked ≡ is_empty n.aliases
  pub bare : id ≡ root → n.aliases ≡ []

unfoldable pub key_at : List (ℕ × Node) → ℕ → Option KeyNode
key_at m id = do n ← lookup id m; n.key

pub record IsBase (m : List (ℕ × Node)) : Type 0 where
  pub ids : IsMap m
  pub rooted : is_key root m ≡ true
  pub node : (id : ℕ) (n : Node) → lookup id m ≡ some n → IsNode id n

-- `by_key` finds exactly the nodes' files, so no two nodes but the root are of one file.
pub record IsTable (t : NodeTable) : Type 0 where
  pub base : IsBase t.nodes
  pub linked : IsLinked t.nodes
  pub known :
      (k : KeyNode) (id : ℕ) → t.by_key k ≡ some id → (id ≢ root) × (key_at t.nodes id ≡ some k)
  pub found : (id : ℕ) (k : KeyNode) → id ≢ root → key_at t.nodes id ≡ some k → t.by_key k ≡ some id

-- A change that keeps the nodes' files.
pub record Keeps (m m' : List (ℕ × Node)) : Type 0 where
  pub base : IsBase m → IsBase m'
  pub keys : (id : ℕ) → key_at m' id ≡ key_at m id
