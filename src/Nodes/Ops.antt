-- ===== src/Nodes/Ops.antt =====
-- crates/client/src/inodes.rs: the operations on the table.
use jackalopefs.Common.{
  ℕ, suc, ◌-◌, Bool, true, false, Option, none, some, List, [], ◌∷◌, ◌++◌, ◌==◌, ltb, if◌then◌else◌,
  ◌>>=◌, lookup, insert, erase, alter, is_key,
}
use jackalopefs.Proto.Types.{FileKind, Identity}
use jackalopefs.Nodes.Table.{
  Name, Alias, root, KeyNode, Seen, Node, NodeTable, key_of, put_key, drop_key, without, drop_alias,
  moved_alias, child, put_child, drop_child,
}
use jackalopefs.Nodes.Numbers.{id_for}

-- The child becomes `c`, and the one replaced loses the alias, unless it is `c`.
unfoldable pub replace_child : ℕ → Name → ℕ → List (ℕ × Node) → List (ℕ × Node)
unfolding child put_child drop_alias
replace_child p name c m = elim (child m p name) [
  | none ↦ put_child p name c m
  | some previous ↦
      if previous == c
      then put_child p name c m
      else drop_alias previous (p, name) (put_child p name c m)
]

-- What `or_insert_with` makes.
unfoldable pub fresh_node : Seen → Node
unfolding key_of
fresh_node s = record {
  aliases = [];
  lookup_count = 0;
  key = some (key_of s);
  unlinked = false;
  kind = s.kind;
  children = λ n. none;
}

-- `entry(id).or_insert_with`.
unfoldable pub ensure_node : ℕ → Seen → List (ℕ × Node) → List (ℕ × Node)
unfolding fresh_node
ensure_node id s m = if is_key id m then m else insert id (fresh_node s) m

-- One lookup more, through this alias, which is then the newest.
unfoldable pub looked_up : Alias → FileKind → Node → Node
unfolding without
looked_up a kind n = record n {
  aliases = without a n.aliases ++ a ∷ [];
  unlinked = false;
  kind = kind;
  lookup_count = suc n.lookup_count;
}

-- The rest of `insert_lookup`, with the node's number.
unfoldable pub register : NodeTable → ℕ → Name → Seen → ℕ → NodeTable
unfolding replace_child ensure_node looked_up put_key key_of
register t parent name s id = record {
  nodes =
      alter id (looked_up (parent, name) s.kind)
        (ensure_node id s (replace_child parent name id t.nodes));
  by_key = put_key (key_of s) id t.by_key;
}

-- `NodeTable::insert_lookup`; `none` if the search for a number runs out of fuel.
unfoldable pub insert_lookup : NodeTable → ℕ → Name → Seen → Option (NodeTable × Option ℕ)
unfolding id_for register
insert_lookup t parent name s = do
  id ← id_for t s
  if id == root then some (t, none) else some (register t parent name s id, some id)

-- `NodeTable::root_seen`.
unfoldable pub root_seen : NodeTable → Identity → NodeTable
root_seen t i = record t {
  nodes = alter root (λ n. record n { key = some (record { ino = root; identity = i }) }) t.nodes;
}

-- The child is removed if it is `id`.
unfoldable pub unlink_child : ℕ → Alias → List (ℕ × Node) → List (ℕ × Node)
unfolding child drop_child
unlink_child id (p, name) m = elim (child m p name) [
  | none ↦ m
  | some c ↦ if c == id then drop_child p name m else m
]

unfoldable pub unlink_children : ℕ → List Alias → List (ℕ × Node) → List (ℕ × Node)
unfolding unlink_child
unlink_children id [] m = m
unlink_children id (a ∷ as') m = unlink_children id as' (unlink_child id a m)

unfoldable pub drop_key_of : Option KeyNode → (KeyNode → Option ℕ) → KeyNode → Option ℕ
unfolding drop_key
drop_key_of none f = f
drop_key_of (some k) f = drop_key k f

-- The node is forgotten.
unfoldable pub forgotten : NodeTable → ℕ → Node → NodeTable
unfolding unlink_children drop_key_of
forgotten t id n = record {
  nodes = unlink_children id n.aliases (erase id t.nodes);
  by_key = drop_key_of n.key t.by_key;
}

-- `NodeTable::forget`.
unfoldable pub forget : NodeTable → ℕ → ℕ → NodeTable × Bool
unfolding forgotten
forget t id n = if id == root then (t, false) else elim (lookup id t.nodes) [
  | none ↦ (t, false)
  | some node ↦
      if ltb n node.lookup_count
      then (
        record t {
          nodes = insert id (record node { lookup_count = node.lookup_count - n }) t.nodes;
        },
        false,
      )
      else (forgotten t id node, true)
]

-- `NodeTable::unlink`.
unfoldable pub unlink : NodeTable → ℕ → Name → NodeTable
unfolding child drop_child drop_alias
unlink t parent name = elim (child t.nodes parent name) [
  | none ↦ t
  | some c ↦ record t { nodes = drop_alias c (parent, name) (drop_child parent name t.nodes) }
]

unfoldable pub is_child : Option ℕ → ℕ → Bool
is_child none c = false
is_child (some b) c = b == c

-- `NodeTable::rename`.
unfoldable pub rename : NodeTable → ℕ → Name → ℕ → Name → NodeTable
unfolding child is_child drop_child replace_child moved_alias
rename t parent name newparent newname = elim (child t.nodes parent name) [
  | none ↦ t
  | some c ↦ if is_child (child t.nodes newparent newname) c then t else record t {
    nodes =
        alter c (moved_alias (parent, name) (newparent, newname))
          (replace_child newparent newname c (drop_child parent name t.nodes));
  }
]

-- `NodeTable::exchange`.
unfoldable pub exchange : NodeTable → ℕ → Name → ℕ → Name → NodeTable
unfolding child put_child moved_alias unlink
exchange t parent name newparent newname = elim (child t.nodes parent name) [
  | none ↦ unlink (unlink t parent name) newparent newname
  | some a ↦ elim (child t.nodes newparent newname) [
    | none ↦ unlink (unlink t parent name) newparent newname
    | some b ↦ if a == b then t else record t {
      nodes = alter b (moved_alias (newparent, newname) (parent, name)) (
          alter a (moved_alias (parent, name) (newparent, newname))
            (put_child newparent newname a (put_child parent name b t.nodes)));
    }
  ]
]
