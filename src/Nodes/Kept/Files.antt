-- ===== src/Nodes/Kept/Files.antt =====
-- crates/client/src/inodes.rs: a file is registered under a number of its own, and forgotten.
use jackalopefs.Common.{
  ℕ, zero, suc, ◌≤◌, ◌≡◌, ◌≢◌, ◌⊎◌, inl, inr, sym, subst, Bool-cases, true, false, not, ◌&&◌,
  Option-cases, none, some, List, arith, ◌==◌, ltb, if◌then◌else◌, lookup, is_key, alter,
  lookup-alter, lookup-insert, alter-IsMap, insert-IsMap, length,
}
use jackalopefs.Nodes.Table.{
  KeyNode, Seen, Name, Alias, Node, NodeTable, root, key_of, without, put_key,
}
use jackalopefs.Nodes.Ops.{fresh_node, replace_child, ensure_node, looked_up, register}
use jackalopefs.Nodes.Numbers.{free_from, next_id, substitute, id_for, root_key, is_root_key}
use jackalopefs.Nodes.Views.{same_key_iff, is_key-alter, is_key-replace_child}
use jackalopefs.Nodes.Links.{register-IsLinked}
use jackalopefs.Nodes.Kept.{IsNode, IsBase, IsTable, key_at}
use jackalopefs.Nodes.Kept.Changes.{replace_child-Keeps}
use jackalopefs.Nodes.Kept.Names.{is_empty-append}

-- What the search finds is free, and not the root.
free_from_lem :
    (fuel id found : ℕ) (m : List (ℕ × Node))
    → 2 ≤ id
    → free_from fuel id m ≡ some found
    → (is_key found m ≡ false) × (2 ≤ found)
unfolding free_from next_id
free_from_lem zero id found m h e = cc
free_from_lem (suc fuel) id found m h e = elim (Bool-cases (is_key id m)) [
  | inl taken ↦ free_from_lem fuel (next_id id) found m (omega arith) (ground arith)
  | inr free ↦ ground arith
]

-- Where the number of a file comes from.
pub id_for_cases :
    (t : NodeTable) (s : Seen) (id : ℕ)
    → id_for t s ≡ some id
    → (id ≡ root)
      ⊎ (t.by_key (key_of s) ≡ some id)
      ⊎ ((t.by_key (key_of s) ≡ none) × (is_key id t.nodes ≡ false) × (id ≢ root))
unfolding id_for substitute
id_for_cases t s id e = elim (Bool-cases (s.ino == root && is_root_key s (root_key t))) [
  | inl is_root ↦ inl (ground arith)
  | inr not_root ↦ elim (Option-cases (t.by_key (key_of s))) [
    | inr (known, there) ↦ inr (inl (ground arith))
    | inl new ↦ elim (Bool-cases (not s.foreign && ltb root s.ino && not (is_key s.ino t.nodes))) [
      | inl own ↦ inr (inr (new, ground arith, ground arith))
      | inr other ↦
          let found : free_from (suc (length t.nodes)) (substitute s.identity) t.nodes ≡ some id =
            ground arith in
          let (free, big) =
            free_from_lem (suc (length t.nodes)) (substitute s.identity) id t.nodes (omega arith)
              found in
          inr (inr (new, free, ground arith))
    ]
  ]
]

-- The number is of no other file.
pub IsNumber : NodeTable → Seen → ℕ → Type 0
IsNumber t s id =
    (id ≢ root) × ((key_at t.nodes id ≡ some (key_of s)) ⊎ (is_key id t.nodes ≡ false))

pub id_for-IsNumber :
    (t : NodeTable) (s : Seen) (id : ℕ)
    → IsTable t
    → id_for t s ≡ some id
    → id ≢ root
    → IsNumber t s id
unfolding IsNumber
id_for-IsNumber t s id i e ne = elim (id_for_cases t s id e) [
  | inl is_root ↦ absurd (ne is_root)
  | inr (inl known) ↦ (ne, inl (i.known (key_of s) id known).1)
  | inr (inr (new, free, other)) ↦ (ne, inr free)
]

key_at-ensure_node :
    (m : List (ℕ × Node)) (id d : ℕ) (s : Seen)
    → key_at (ensure_node id s m) d
      ≡ (if is_key id m then key_at m d else if d == id then some (key_of s) else key_at m d)
unfolding key_at ensure_node fresh_node
key_at-ensure_node m id d s = ground (arith, lookup-insert id d (fresh_node s) m)

key_at-looked_up :
    (m : List (ℕ × Node)) (c d : ℕ) (a : Alias) (s : Seen)
    → key_at (alter c (looked_up a s.kind) m) d ≡ key_at m d
unfolding key_at looked_up
key_at-looked_up m c d a s = elim (Option-cases (lookup d m)) [
  | inl e ↦ ground (arith, lookup-alter c d (looked_up a s.kind) m)
  | inr (n, e) ↦ ground (arith, lookup-alter c d (looked_up a s.kind) m)
]

-- After the lookup is counted, the node is one of the table.
looked_up-IsNode :
    (id : ℕ) (a : Alias) (s : Seen) (n : Node)
    → id ≢ root
    → n.key ≢ none
    → IsNode id (looked_up a s.kind n)
unfolding looked_up
looked_up-IsNode id a s n ne k = record {
  has_key = λ h. k;
  counted = omega arith;
  flag = λ h. sym (is_empty-append (without a n.aliases) a);
  bare = λ e. absurd (ne e);
}

registered_node :
    (m : List (ℕ × Node)) (id d : ℕ) (a : Alias) (s : Seen) (n : Node)
    → IsBase m
    → id ≢ root
    → lookup d (alter id (looked_up a s.kind) (ensure_node id s m)) ≡ some n
    → IsNode d n
unfolding ensure_node fresh_node
registered_node m id d a s n b ne at = elim (Bool-cases (d == id)) [
  | inr other ↦ b.node d n (
      ground (
        arith,
        lookup-alter id d (looked_up a s.kind) (ensure_node id s m),
        lookup-insert id d (fresh_node s) m,
      ))
  | inl same ↦ elim (Option-cases (lookup id m)) [
    | inl new ↦
        subst (λ (x : ℕ × Node). IsNode x.0 x.1)
          (same_pair (fresh_node s)
            (ground (
              arith,
              lookup-alter id d (looked_up a s.kind) (ensure_node id s m),
              lookup-insert id d (fresh_node s) m,
            ))
            same)
          (looked_up-IsNode id a s (fresh_node s) ne (fresh_key s))
    | inr (o, there) ↦
        subst (λ (x : ℕ × Node). IsNode x.0 x.1)
          (same_pair o (ground (arith, lookup-alter id d (looked_up a s.kind) (ensure_node id s m)))
            same)
          (looked_up-IsNode id a s o ne ((b.node id o there).has_key ne))
  ]
]
  where
    fresh_key : (s : Seen) → (fresh_node s).key ≢ none
    fresh_key s e = cc

    same_pair :
        (o : Node)
        → looked_up a s.kind o ≡ n
        → (d == id) ≡ true
        → ◌≡◌ {A = ℕ × Node} (id, looked_up a s.kind o) (d, n)
    same_pair o e h = ground arith

registered-IsBase :
    (m : List (ℕ × Node)) (id : ℕ) (a : Alias) (s : Seen)
    → IsBase m
    → id ≢ root
    → IsBase (alter id (looked_up a s.kind) (ensure_node id s m))
unfolding ensure_node
registered-IsBase m id a s b ne = record {
  ids =
      alter-IsMap id (looked_up a s.kind) (ensure_node id s m)
        (ground (arith, b.ids, insert-IsMap id (fresh_node s) m));
  rooted = ground (
    arith,
    b.rooted,
    is_key-alter (ensure_node id s m) root id (looked_up a s.kind),
    lookup-insert id root (fresh_node s) m,
  );
  node = λ d n at. registered_node m id d a s n b ne at;
}

pub key_at-none : (m : List (ℕ × Node)) (k : ℕ) → is_key k m ≡ false → key_at m k ≡ none
unfolding key_at
key_at-none m k h = ground arith

-- The files of the nodes after a registration.
pub key_at-register :
    (t : NodeTable) (parent id d : ℕ) (name : Name) (s : Seen)
    → IsNumber t s id
    → key_at (register t parent name s id).nodes d
      ≡ (if d == id then some (key_of s) else key_at t.nodes d)
unfolding register IsNumber
key_at-register t parent id d name s number =
    let m1 = replace_child parent name id t.nodes in
    ground (
      arith,
      key_at-looked_up (ensure_node id s m1) id d (parent, name) s,
      key_at-ensure_node m1 id d s,
      (replace_child-Keeps t.nodes parent id name).keys d,
      is_key-replace_child t.nodes id parent id name,
      key_at-none t.nodes id,
    )

pub register-IsTable :
    (t : NodeTable) (parent id : ℕ) (name : Name) (s : Seen)
    → IsTable t
    → IsNumber t s id
    → (t.by_key (key_of s) ≡ some id) ⊎ (t.by_key (key_of s) ≡ none)
    → IsTable (register t parent name s id)
unfolding register put_key IsNumber
register-IsTable t parent id name s i number by = record {
  base =
      registered-IsBase (replace_child parent name id t.nodes) id (parent, name) s
        ((replace_child-Keeps t.nodes parent id name).base i.base) number.0;
  linked = register-IsLinked t parent id name s i.linked;
  known = λ k d at. registered_known k d at;
  found = λ d k ne at. registered_found d k ne at;
}
  where
    registered_known :
        (k : KeyNode) (d : ℕ)
        → (register t parent name s id).by_key k ≡ some d
        → (d ≢ root) × (key_at (register t parent name s id).nodes d ≡ some k)
    registered_known k d at = ground (
      arith,
      i.known k d,
      key_at-register t parent id d name s number,
      same_key_iff k (key_of s),
      key_at-none t.nodes id,
    )

    registered_found :
        (d : ℕ) (k : KeyNode)
        → d ≢ root
        → key_at (register t parent name s id).nodes d ≡ some k
        → (register t parent name s id).by_key k ≡ some d
    registered_found d k ne at = ground (
      arith,
      i.found d k ne,
      key_at-register t parent id d name s number,
      same_key_iff k (key_of s),
    )
