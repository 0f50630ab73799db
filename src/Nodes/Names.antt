-- ===== src/Nodes/Names.antt =====
-- crates/client/src/inodes.rs: the paths of nodes, and an alias that was wrong.
use jackalopefs.Common.{
  ℕ, zero, suc, Bool, true, false, ◌&&◌, Option, none, some, List, [], ◌∷◌, ◌++◌, ◌==◌,
  if◌then◌else◌, ◌>>=◌, get_elem?, remove_at, lookup, alter,
}
use jackalopefs.Proto.Path.{from_names, split_last}
use jackalopefs.Proto.Owners.Acl.{same_bytes}
use jackalopefs.Nodes.Table.{Name, Alias, root, Node, NodeTable, is_empty, child}
use jackalopefs.Nodes.Ops.{unlink_child}

-- The last alias that the test finds.
unfoldable pub last_position : (Alias → Bool) → List Alias → Option ℕ
last_position test [] = none
last_position test (a ∷ as') = elim (last_position test as') [
  | some i ↦ some (suc i)
  | none ↦ if test a then some 0 else none
]

-- The `find_map` of `names_to` over the aliases, the newest of which is last.
unfoldable pub newest_path : (ℕ → Option (List Name)) → List Alias → Option (List Name)
newest_path names [] = none
newest_path names ((p, name) ∷ as') = elim (newest_path names as') [
  | some found ↦ some found
  | none ↦ elim (names p) [ none ↦ none | some found ↦ some (found ++ name ∷ []) ]
]

abbrev pub max_depth : ℕ
max_depth = 2048

-- `NodeTable::names_to`, on the levels left before it gives up.
unfoldable pub names_to : ℕ → List (ℕ × Node) → ℕ → Option (List Name)
unfolding newest_path
names_to zero m id = if id == root then some [] else none
names_to (suc levels) m id =
    let above = names_to levels m in
    if id == root
    then some []
    else elim (lookup id m) [ none ↦ none | some n ↦ newest_path above n.aliases ]

-- `NodeTable::path_of`.
unfoldable pub path_of : NodeTable → ℕ → Option (List Name)
unfolding names_to
path_of t id = do names ← names_to (suc max_depth) t.nodes id; from_names names

-- The loop of `resolve_path`.
unfoldable pub resolve_from : List (ℕ × Node) → ℕ → List Name → Option ℕ
unfolding child
resolve_from m id [] = some id
resolve_from m id (name ∷ names) = do c ← child m id name; resolve_from m c names

-- `NodeTable::resolve_path`.
unfoldable pub resolve_path : NodeTable → List Name → Option ℕ
unfolding resolve_from
resolve_path t path = resolve_from t.nodes root path

unfoldable pub same_names : List Name → List Name → Bool
unfolding same_bytes
same_names [] [] = true
same_names (a ∷ as') (b ∷ bs) = same_bytes a b && same_names as' bs
same_names _ _ = false

-- The test of `alias_was_wrong`.
unfoldable pub is_wrong : List (ℕ × Node) → List Name → Name → Alias → Bool
unfolding same_names names_to same_bytes
is_wrong m dir last (parent, name) =
    same_bytes name last && (elim (names_to (suc max_depth) m parent) [
      | none ↦ false
      | some names ↦ same_names names dir
    ])

-- The alias at a place goes.
unfoldable pub without_alias_at : ℕ → Node → Node
unfolding is_empty
without_alias_at i n =
    let rest = remove_at n.aliases i in
    record n { aliases = rest; unlinked = if is_empty rest then true else n.unlinked }

-- `NodeTable::alias_was_wrong`; its answer is the alias forgotten.
unfoldable pub alias_was_wrong : NodeTable → ℕ → List Name → NodeTable × Option Alias
unfolding last_position is_wrong without_alias_at unlink_child
alias_was_wrong t id path = elim (split_last path) [
  | none ↦ (t, none)
  | some (dir, last) ↦ elim (lookup id t.nodes) [
    | none ↦ (t, none)
    | some n ↦ elim (last_position (is_wrong t.nodes dir last) n.aliases) [
      | none ↦ (t, none)
      | some i ↦ elim (get_elem? n.aliases i) [
        | none ↦ (t, none)
        | some a ↦
            (record t { nodes = unlink_child id a (alter id (without_alias_at i) t.nodes) }, some a)
      ]
    ]
  ]
]
