-- ===== src/Nodes/Held.antt =====
-- crates/client/src/inodes.rs: the lookups that the table counts of each node, operation by operation.
use jackalopefs.Common.{
  ℕ, suc, ◌-◌, ◌≡◌, inl, inr, refl, ◌∙◌, not, ◌&&◌, Option-cases, none, some, List, [], ◌∷◌, arith,
  ◌==◌, if◌then◌else◌, lookup, erase, alter, is_key, lookup-alter, lookup-insert, lookup-erase_self,
  lookup-erase_ne, IsMap, get_elem?,
}
use jackalopefs.Proto.Types.{FileKind, Identity}
use jackalopefs.Proto.Path.{split_last}
use jackalopefs.Nodes.Table.{
  Name, Alias, Seen, Node, NodeTable, root, child, put_name, drop_name, put_child, drop_child,
  drop_alias, without_alias, moved_alias,
}
use jackalopefs.Nodes.Ops.{
  replace_child, fresh_node, ensure_node, looked_up, register, root_seen, unlink_child,
  unlink_children, forgotten, forget, unlink, rename, exchange,
}
use jackalopefs.Nodes.Names.{without_alias_at, last_position, is_wrong, alias_was_wrong}
use jackalopefs.Nodes.Views.{is_key-ensure_node}

-- The lookups counted of a node, none if it is not in the table.
unfoldable pub count_at : List (ℕ × Node) → ℕ → ℕ
count_at m id = elim (lookup id m) [ none ↦ 0 | some n ↦ n.lookup_count ]

count_at-alter :
    (m : List (ℕ × Node)) (k id : ℕ) (f : Node → Node)
    → ((n : Node) → (f n).lookup_count ≡ n.lookup_count)
    → count_at (alter k f m) id ≡ count_at m id
unfolding count_at
count_at-alter m k id f same = elim (Option-cases (lookup id m)) [
  | inl e ↦ ground (arith, lookup-alter k id f m)
  | inr (n, e) ↦ ground (arith, lookup-alter k id f m, same n)
]

module _ (d : ℕ) where
  count-put_child :
      (m : List (ℕ × Node)) (p c : ℕ) (x : Name) → count_at (put_child p x c m) d ≡ count_at m d
  unfolding put_child
  count-put_child m p c x =
      count_at-alter m p d (λ n. record n { children = put_name x c n.children }) (λ n. refl)

  count-drop_child :
      (m : List (ℕ × Node)) (p : ℕ) (x : Name) → count_at (drop_child p x m) d ≡ count_at m d
  unfolding drop_child
  count-drop_child m p x =
      count_at-alter m p d (λ n. record n { children = drop_name x n.children }) (λ n. refl)

  count-drop_alias :
      (m : List (ℕ × Node)) (c : ℕ) (a : Alias) → count_at (drop_alias c a m) d ≡ count_at m d
  unfolding drop_alias without_alias
  count-drop_alias m c a = count_at-alter m c d (without_alias a) (λ n. refl)

  count-moved_alias :
      (m : List (ℕ × Node)) (c : ℕ) (old new : Alias)
      → count_at (alter c (moved_alias old new) m) d ≡ count_at m d
  unfolding moved_alias
  count-moved_alias m c old new = count_at-alter m c d (moved_alias old new) (λ n. refl)

  count-without_alias_at :
      (m : List (ℕ × Node)) (c place : ℕ)
      → count_at (alter c (without_alias_at place) m) d ≡ count_at m d
  unfolding without_alias_at
  count-without_alias_at m c place = count_at-alter m c d (without_alias_at place) (λ n. refl)

  count-replace_child :
      (m : List (ℕ × Node)) (p c : ℕ) (x : Name) → count_at (replace_child p x c m) d ≡ count_at m d
  unfolding replace_child
  count-replace_child m p c x = elim (Option-cases (child m p x)) [
    | inl e ↦ ground (arith, count-put_child m p c x)
    | inr (b, e) ↦
        ground (arith, count-put_child m p c x, count-drop_alias (put_child p x c m) b (p, x))
  ]

  count-unlink_child :
      (m : List (ℕ × Node)) (id : ℕ) (a : Alias) → count_at (unlink_child id a m) d ≡ count_at m d
  unfolding unlink_child
  count-unlink_child m id (p, x) = ground (arith, count-drop_child m p x)

  count-unlink_children :
      (as' : List Alias) (m : List (ℕ × Node)) (id : ℕ)
      → count_at (unlink_children id as' m) d ≡ count_at m d
  unfolding unlink_children
  count-unlink_children [] m id = refl
  count-unlink_children (a ∷ as') m id =
      count-unlink_children as' (unlink_child id a m) id ∙ count-unlink_child m id a

  pub count-unlink :
      (t : NodeTable) (parent : ℕ) (name : Name)
      → count_at (unlink t parent name).nodes d ≡ count_at t.nodes d
  unfolding unlink
  count-unlink t parent name = elim (Option-cases (child t.nodes parent name)) [
    | inl e ↦ ground arith
    | inr (c, e) ↦ ground (
      arith,
      count-drop_child t.nodes parent name,
      count-drop_alias (drop_child parent name t.nodes) c (parent, name),
    )
  ]

  pub count-rename :
      (t : NodeTable) (parent newparent : ℕ) (name newname : Name)
      → count_at (rename t parent name newparent newname).nodes d ≡ count_at t.nodes d
  unfolding rename
  count-rename t parent newparent name newname = elim (Option-cases (child t.nodes parent name)) [
    | inl e ↦ ground arith
    | inr (c, e) ↦
        let m1 = drop_child parent name t.nodes in
        let m2 = replace_child newparent newname c m1 in
        ground (
          arith,
          count-moved_alias m2 c (parent, name) (newparent, newname),
          count-replace_child m1 newparent c newname,
          count-drop_child t.nodes parent name,
        )
  ]

  pub count-exchange :
      (t : NodeTable) (parent newparent : ℕ) (name newname : Name)
      → count_at (exchange t parent name newparent newname).nodes d ≡ count_at t.nodes d
  unfolding exchange
  count-exchange t parent newparent name newname = elim (Option-cases (child t.nodes parent name)) [
    | inl e ↦ rw (e, exchange) both
    | inr (a, ea) ↦ elim (Option-cases (child t.nodes newparent newname)) [
      | inl e ↦ rw (ea, exchange) (rw (e, exchange) both)
      | inr (b, eb) ↦
          let m1 = put_child parent name b t.nodes in
          let m2 = put_child newparent newname a m1 in
          let m3 = alter a (moved_alias (parent, name) (newparent, newname)) m2 in
          ground (
            arith,
            count-moved_alias m3 b (newparent, newname) (parent, name),
            count-moved_alias m2 a (parent, name) (newparent, newname),
            count-put_child m1 newparent a newname,
            count-put_child t.nodes parent b name,
          )
    ]
  ]
    where
      both : count_at (unlink (unlink t parent name) newparent newname).nodes d ≡ count_at t.nodes d
      both = count-unlink (unlink t parent name) newparent newname ∙ count-unlink t parent name

  pub count-root_seen :
      (t : NodeTable) (i : Identity) → count_at (root_seen t i).nodes d ≡ count_at t.nodes d
  unfolding root_seen
  count-root_seen t i =
      count_at-alter t.nodes root d
        (λ n. record n { key = some (record { ino = root; identity = i }) }) (λ n. refl)

  pub count-alias_was_wrong :
      (t : NodeTable) (id : ℕ) (path : List Name)
      → count_at (alias_was_wrong t id path).0.nodes d ≡ count_at t.nodes d
  unfolding alias_was_wrong
  count-alias_was_wrong t id path = elim (Option-cases (split_last path)) [
    | inl e ↦ rw (e, alias_was_wrong) refl
    | inr ((dir, last), e) ↦ elim (Option-cases (lookup id t.nodes)) [
      | inl f ↦ rw (e, alias_was_wrong) (rw (f, alias_was_wrong) refl)
      | inr (n, f) ↦ elim (Option-cases (last_position (is_wrong t.nodes dir last) n.aliases)) [
        | inl g ↦ rw (e, alias_was_wrong) (rw (f, alias_was_wrong) (rw (g, alias_was_wrong) refl))
        | inr (place, g) ↦ elim (Option-cases (get_elem? n.aliases place)) [
          | inl h ↦
              rw (e, alias_was_wrong)
                (rw (f, alias_was_wrong) (rw (g, alias_was_wrong) (rw (h, alias_was_wrong) refl)))
          | inr (a, h) ↦
              rw (e, alias_was_wrong)
                (rw (f, alias_was_wrong)
                  (rw (g, alias_was_wrong)
                    (rw (h, alias_was_wrong)
                      (count-unlink_child (alter id (without_alias_at place) t.nodes) id a
                        ∙ count-without_alias_at t.nodes id place))))
        ]
      ]
    ]
  ]

  count-ensure_node :
      (m : List (ℕ × Node)) (id : ℕ) (s : Seen) → count_at (ensure_node id s m) d ≡ count_at m d
  unfolding count_at ensure_node fresh_node
  count-ensure_node m id s = ground (arith, lookup-insert id d (fresh_node s) m)

  count-looked_up :
      (m : List (ℕ × Node)) (id : ℕ) (a : Alias) (kind : FileKind)
      → count_at (alter id (looked_up a kind) m) d
        ≡ (if d == id && is_key id m then suc (count_at m d) else count_at m d)
  unfolding count_at looked_up
  count-looked_up m id a kind = elim (Option-cases (lookup d m)) [
    | inl e ↦ ground (arith, lookup-alter id d (looked_up a kind) m)
    | inr (n, e) ↦ ground (arith, lookup-alter id d (looked_up a kind) m)
  ]

  -- A lookup counts one more of the node found.
  pub count-register :
      (t : NodeTable) (parent id : ℕ) (name : Name) (s : Seen)
      → count_at (register t parent name s id).nodes d
        ≡ (if d == id then suc (count_at t.nodes d) else count_at t.nodes d)
  unfolding register
  count-register t parent id name s =
      let m1 = replace_child parent name id t.nodes in
      ground (
        arith,
        count-looked_up (ensure_node id s m1) id (parent, name) s.kind,
        is_key-ensure_node m1 id s,
        count-ensure_node m1 id s,
        count-replace_child t.nodes parent id name,
      )

  count-forgotten :
      (t : NodeTable) (id : ℕ) (n : Node)
      → IsMap t.nodes
      → count_at (forgotten t id n).nodes d ≡ (if d == id then 0 else count_at t.nodes d)
  unfolding forgotten count_at
  count-forgotten t id n ids =
      count-unlink_children n.aliases (erase id t.nodes) id
      ∙ ground (arith, lookup-erase_self id t.nodes ids, lookup-erase_ne id d t.nodes)

  -- Lookups dropped are counted no more.
  pub count-forget :
      (t : NodeTable) (id n : ℕ)
      → IsMap t.nodes
      → count_at (forget t id n).0.nodes d
        ≡ (if d == id && not (id == root) then count_at t.nodes d - n else count_at t.nodes d)
  unfolding forget count_at
  count-forget t id n ids = elim (Option-cases (lookup id t.nodes)) [
    | inl e ↦ ground arith
    | inr (o, e) ↦ ground (
      arith,
      lookup-insert id d (record o { lookup_count = o.lookup_count - n }) t.nodes,
      count-forgotten t id o ids,
    )
  ]
