-- ===== src/Nodes/Links.antt =====
-- crates/client/src/inodes.rs: a child that a directory names has that alias, and so is in the table.
use jackalopefs.Common.{
  ℕ, ◌≡◌, inl, inr, refl, ◌∙◌, true, ◌&&◌, Option-cases, none, some, List, [], ◌∷◌, arith,
  if◌then◌else◌, lookup, erase, alter, is_key, lookup-erase_ne, lookup-erase_self, IsMap,
}
use jackalopefs.Nodes.Table.{
  Name, Alias, Seen, Node, NodeTable, same_alias, child, drop_child, put_child, moved_alias,
  drop_name, put_name,
}
use jackalopefs.Nodes.Ops.{
  is_child, replace_child, ensure_node, register, unlink, unlink_child, unlink_children, forgotten,
  rename, exchange,
}
use jackalopefs.Nodes.Views.{
  same_bytes_iff, has_alias, aliased, child-put_child, child-drop_child, aliased-put_child,
  aliased-drop_child, child-drop_alias, aliased-drop_alias, child-moved_alias, aliased-moved_alias,
  child-replace_child, aliased-replace_child, is_key-replace_child, child-looked_up,
  aliased-looked_up, child-ensure_node, aliased-ensure_node, is_key-ensure_node, is_key-alter,
  aliased-is_key,
}

abbrev pub IsLinked : List (ℕ × Node) → Type 0
IsLinked m = (p c : ℕ) (x : Name) → child m p x ≡ some c → aliased m (p, x) c ≡ true

pub register-IsLinked :
    (t : NodeTable) (parent id : ℕ) (name : Name) (s : Seen)
    → IsLinked t.nodes
    → IsLinked (register t parent name s id).nodes
unfolding register same_alias is_child
register-IsLinked t parent id name s l p c x at =
    let m1 = replace_child parent name id t.nodes in
    let m2 = ensure_node id s m1 in
    ground (
      arith,
      child-looked_up m2 id p (parent, name) s.kind x,
      child-ensure_node m1 id p s x,
      child-replace_child t.nodes parent id p name x,
      aliased-looked_up m2 id c (p, x) (parent, name) s.kind,
      aliased-ensure_node m1 id c s (p, x),
      aliased-replace_child t.nodes parent id c name (p, x),
      is_key-ensure_node m1 id s,
      same_bytes_iff x name,
      l p c x,
    )

pub unlink-IsLinked :
    (t : NodeTable) (parent : ℕ) (name : Name)
    → IsLinked t.nodes
    → IsLinked (unlink t parent name).nodes
unfolding unlink same_alias
unlink-IsLinked t parent name l p c x at = elim (Option-cases (child t.nodes parent name)) [
  | inl e ↦ ground (arith, l p c x)
  | inr (d, e) ↦
      let m1 = drop_child parent name t.nodes in
      ground (
        arith,
        child-drop_alias m1 d p (parent, name) x,
        child-drop_child t.nodes parent p name x,
        aliased-drop_alias m1 d c (p, x) (parent, name),
        aliased-drop_child t.nodes parent c name (p, x),
        l p c x,
      )
]

pub rename-IsLinked :
    (t : NodeTable) (parent newparent : ℕ) (name newname : Name)
    → IsLinked t.nodes
    → IsLinked (rename t parent name newparent newname).nodes
unfolding rename same_alias is_child drop_child
rename-IsLinked t parent newparent name newname l p c x at =
    elim (Option-cases (child t.nodes parent name)) [
      | inl e ↦ ground (arith, l p c x)
      | inr (d, e) ↦
          let m1 = drop_child parent name t.nodes in
          let m2 = replace_child newparent newname d m1 in
          ground (
            arith,
            child-moved_alias m2 d p (parent, name) (newparent, newname) x,
            child-replace_child m1 newparent d p newname x,
            child-drop_child t.nodes parent p name x,
            child-drop_child t.nodes parent newparent name newname,
            aliased-moved_alias m2 d c (p, x) (parent, name) (newparent, newname),
            aliased-replace_child m1 newparent d c newname (p, x),
            aliased-drop_child t.nodes parent c name (p, x),
            aliased-drop_child t.nodes parent d name (parent, name),
            is_key-replace_child m1 d newparent d newname,
            is_key-alter t.nodes d parent
                (λ (n : Node). record n { children = drop_name name n.children }),
            aliased-is_key t.nodes (parent, name) d,
            same_bytes_iff x name,
            same_bytes_iff x newname,
            same_bytes_iff newname name,
            l p c x,
            l parent d name,
          )
    ]

exchange_links :
    (t : NodeTable) (parent newparent a b : ℕ) (name newname : Name)
    → child t.nodes parent name ≡ some a
    → child t.nodes newparent newname ≡ some b
    → IsLinked t.nodes
    → IsLinked (exchange t parent name newparent newname).nodes
unfolding exchange same_alias put_child
exchange_links t parent newparent a b name newname ea eb l p c x at =
    let m1 = put_child parent name b t.nodes in
    let m2 = put_child newparent newname a m1 in
    let m3 = alter a (moved_alias (parent, name) (newparent, newname)) m2 in
    ground (
      arith,
      child-moved_alias m3 b p (newparent, newname) (parent, name) x,
      child-moved_alias m2 a p (parent, name) (newparent, newname) x,
      child-put_child m1 newparent a p newname x,
      child-put_child t.nodes parent b p name x,
      aliased-moved_alias m3 b c (p, x) (newparent, newname) (parent, name),
      aliased-moved_alias m2 a c (p, x) (parent, name) (newparent, newname),
      aliased-put_child m1 newparent a c newname (p, x),
      aliased-put_child t.nodes parent b c name (p, x),
      keys a,
      keys b,
      keys3 b,
      aliased-is_key t.nodes (parent, name) a,
      aliased-is_key t.nodes (newparent, newname) b,
      same_bytes_iff x name,
      same_bytes_iff x newname,
      l p c x,
      l parent a name,
      l newparent b newname,
    )
  where
    m1 : List (ℕ × Node)
    m1 = put_child parent name b t.nodes

    m2 : List (ℕ × Node)
    m2 = put_child newparent newname a m1

    keys : (k : ℕ) → is_key k m2 ≡ is_key k t.nodes
    keys k =
        is_key-alter m1 k newparent
          (λ (n : Node). record n { children = put_name newname a n.children })
        ∙ is_key-alter t.nodes k parent
            (λ (n : Node). record n { children = put_name name b n.children })

    keys3 :
        (k : ℕ)
        → is_key k (alter a (moved_alias (parent, name) (newparent, newname)) m2) ≡ is_key k m2
    keys3 k = is_key-alter m2 k a (moved_alias (parent, name) (newparent, newname))

pub exchange-IsLinked :
    (t : NodeTable) (parent newparent : ℕ) (name newname : Name)
    → IsLinked t.nodes
    → IsLinked (exchange t parent name newparent newname).nodes
unfolding exchange
exchange-IsLinked t parent newparent name newname l =
    elim (Option-cases (child t.nodes parent name)) [
      | inl e ↦ rw (e, exchange) both
      | inr (a, ea) ↦ elim (Option-cases (child t.nodes newparent newname)) [
        | inl e ↦ rw (ea, exchange) (rw (e, exchange) both)
        | inr (b, eb) ↦ exchange_links t parent newparent a b name newname ea eb l
      ]
    ]
  where
    both : IsLinked (unlink (unlink t parent name) newparent newname).nodes
    both =
        unlink-IsLinked (unlink t parent name) newparent newname (unlink-IsLinked t parent name l)

pub child-unlink_child :
    (m : List (ℕ × Node)) (id q : ℕ) (a : Alias) (y : Name)
    → child (unlink_child id a m) q y
      ≡ (if same_alias (q, y) a && is_child (child m q y) id then none else child m q y)
unfolding unlink_child same_alias is_child
child-unlink_child m id q (p, x) y = ground (arith, child-drop_child m p q x y, same_bytes_iff y x)

pub aliased-unlink_child :
    (m : List (ℕ × Node)) (id d : ℕ) (a b : Alias)
    → aliased (unlink_child id a m) b d ≡ aliased m b d
unfolding unlink_child
aliased-unlink_child m id d (p, x) b = ground (arith, aliased-drop_child m p d x b)

child-unlink_children :
    (as' : List Alias) (m : List (ℕ × Node)) (id q : ℕ) (y : Name)
    → child (unlink_children id as' m) q y
      ≡ (if has_alias (q, y) as' && is_child (child m q y) id then none else child m q y)
unfolding unlink_children has_alias is_child
child-unlink_children [] m id q y = refl
child-unlink_children (a ∷ as') m id q y =
    ground
      (arith, child-unlink_children as' (unlink_child id a m) id q y, child-unlink_child m id q a y)

aliased-unlink_children :
    (as' : List Alias) (m : List (ℕ × Node)) (id d : ℕ) (b : Alias)
    → aliased (unlink_children id as' m) b d ≡ aliased m b d
unfolding unlink_children
aliased-unlink_children [] m id d b = refl
aliased-unlink_children (a ∷ as') m id d b = ground (
  arith,
  aliased-unlink_children as' (unlink_child id a m) id d b,
  aliased-unlink_child m id d a b,
)

pub forgotten-IsLinked :
    (t : NodeTable) (id : ℕ) (n : Node)
    → IsMap t.nodes
    → lookup id t.nodes ≡ some n
    → IsLinked t.nodes
    → IsLinked (forgotten t id n).nodes
unfolding forgotten aliased child is_child
forgotten-IsLinked t id n ids there l p c x at =
    let m1 = erase id t.nodes in
    ground (
      arith,
      child-unlink_children n.aliases m1 id p x,
      aliased-unlink_children n.aliases m1 id c (p, x),
      lookup-erase_self id t.nodes ids,
      lookup-erase_ne id p t.nodes,
      lookup-erase_ne id c t.nodes,
      l p c x,
    )

-- The node looked up has the name, and the directory names it, if it is there.
pub register-links :
    (t : NodeTable) (parent id : ℕ) (name : Name) (s : Seen)
    → (aliased (register t parent name s id).nodes (parent, name) id ≡ true)
      × (is_key parent t.nodes ≡ true
          → child (register t parent name s id).nodes parent name ≡ some id)
unfolding register same_alias
register-links t parent id name s =
    let m1 = replace_child parent name id t.nodes in
    let m2 = ensure_node id s m1 in
    (
      ground (
        arith,
        aliased-looked_up m2 id id (parent, name) (parent, name) s.kind,
        is_key-ensure_node m1 id s,
        same_bytes_iff name name,
      ),
      λ here. ground (
        arith,
        child-looked_up m2 id parent (parent, name) s.kind name,
        child-ensure_node m1 id parent s name,
        child-replace_child t.nodes parent id parent name name,
        same_bytes_iff name name,
      ),
    )
