-- ===== src/Nodes/Kept/Names.antt =====
-- crates/client/src/inodes.rs: the operations on names keep the table.
use jackalopefs.Common.{
  ℕ, ◌≡◌, ◌≢◌, inl, inr, refl, sym, subst, ◌∙◌, Bool-cases, true, false, Option, Option-cases, some,
  List, [], ◌∷◌, ◌++◌, arith, ◌==◌, lookup, alter,
}
use jackalopefs.Nodes.Table.{
  KeyNode, Name, Alias, Node, NodeTable, is_empty, without, child, put_child, drop_child,
  moved_alias,
}
use jackalopefs.Nodes.Ops.{replace_child, unlink, is_child, rename, exchange}
use jackalopefs.Nodes.Views.{
  has_alias, aliased, aliased-drop_child, aliased-replace_child, aliased-put_child,
  aliased-moved_alias,
}
use jackalopefs.Nodes.Links.{IsLinked, unlink-IsLinked, rename-IsLinked, exchange-IsLinked}
use jackalopefs.Nodes.Kept.{IsBase, IsTable, Keeps}
use jackalopefs.Nodes.Kept.Changes.{
  Keeps-trans, Keeps-refl, alter-Keeps, drop_alias-Keeps, put_child-Keeps, drop_child-Keeps,
  replace_child-Keeps,
}

pub Keeps-IsTable :
    (t u : NodeTable)
    → Keeps t.nodes u.nodes
    → u.by_key ≡ t.by_key
    → IsLinked u.nodes
    → IsTable t
    → IsTable u
Keeps-IsTable t u k same l i = record {
  base = k.base i.base;
  linked = l;
  known = λ key id at.
      let was = i.known key id (subst (λ (f : KeyNode → Option ℕ). f key ≡ some id) same at) in
      (was.0, k.keys id ∙ was.1);
  found = λ id key ne at.
      subst (λ (f : KeyNode → Option ℕ). f key ≡ some id) (sym same)
        (i.found id key ne (sym (k.keys id) ∙ at));
}

-- A node with an alias is not the root, and not flagged.
aliased_node :
    (m : List (ℕ × Node)) (c : ℕ) (a : Alias) (n : Node)
    → aliased m a c ≡ true
    → lookup c m ≡ some n
    → is_empty n.aliases ≡ false
unfolding aliased has_alias is_empty
aliased_node m c a n h at = elim (Bool-cases (is_empty n.aliases)) [
  | inl e ↦ absurd (no_alias n.aliases e (ground arith))
  | inr e ↦ e
]
  where
    no_alias : (as' : List Alias) → is_empty as' ≡ true → has_alias a as' ≢ true
    no_alias [] e g = cc
    no_alias (b ∷ bs) e g = cc

pub is_empty-append : (as' : List Alias) (a : Alias) → is_empty (as' ++ a ∷ []) ≡ false
unfolding is_empty
is_empty-append [] a = refl
is_empty-append (b ∷ bs) a = refl

moved_alias-Keeps :
    (m : List (ℕ × Node)) (c : ℕ) (a old new : Alias)
    → IsBase m
    → aliased m a c ≡ true
    → Keeps m (alter c (moved_alias old new) m)
unfolding moved_alias is_empty
moved_alias-Keeps m c a old new b h =
    alter-Keeps m c (moved_alias old new) (λ n. refl)
      (λ n at k. record {
        has_key = k.has_key;
        counted = k.counted;
        flag = λ ne.
            k.flag ne
            ∙ aliased_node m c a n h at
            ∙ sym (is_empty-append (without old n.aliases) new);
        bare = λ e. absurd (ground (arith, k.bare e, aliased_node m c a n h at));
      })

unlink-Keeps :
    (t : NodeTable) (parent : ℕ) (name : Name) → Keeps t.nodes (unlink t parent name).nodes
unfolding unlink
unlink-Keeps t parent name = elim (Option-cases (child t.nodes parent name)) [
  | inl e ↦ rw (e, unlink) (Keeps-refl t.nodes)
  | inr (c, e) ↦
      rw (e, unlink)
        (Keeps-trans t.nodes (drop_child parent name t.nodes) _
          (drop_child-Keeps t.nodes parent name)
          (drop_alias-Keeps (drop_child parent name t.nodes) c (parent, name)))
]

rename-Keeps :
    (t : NodeTable) (parent newparent : ℕ) (name newname : Name)
    → IsTable t
    → Keeps t.nodes (rename t parent name newparent newname).nodes
unfolding rename
rename-Keeps t parent newparent name newname i = elim (Option-cases (child t.nodes parent name)) [
  | inl e ↦ rw (e, rename) (Keeps-refl t.nodes)
  | inr (c, e) ↦ elim (Bool-cases (is_child (child t.nodes newparent newname) c)) [
    | inl same ↦ rw (e, rename) (rw same (Keeps-refl t.nodes))
    | inr other ↦
        let m1 = drop_child parent name t.nodes in
        let m2 = replace_child newparent newname c m1 in
        let k2 : Keeps t.nodes m2 =
          Keeps-trans t.nodes m1 m2 (drop_child-Keeps t.nodes parent name)
            (replace_child-Keeps m1 newparent c newname) in
        rw (e, rename)
          (rw other (
            Keeps-trans t.nodes m2 _ k2 (
              moved_alias-Keeps m2 c (parent, name) (parent, name) (newparent, newname)
                (k2.base i.base)
                (ground (
                  arith,
                  aliased-drop_child t.nodes parent c name (parent, name),
                  aliased-replace_child m1 newparent c c newname (parent, name),
                  i.linked parent c name,
                )))))
  ]
]

exchanged-Keeps :
    (t : NodeTable) (parent newparent a b : ℕ) (name newname : Name)
    → IsTable t
    → child t.nodes parent name ≡ some a
    → child t.nodes newparent newname ≡ some b
    → (a == b) ≡ false
    → Keeps t.nodes (
        alter b (moved_alias (newparent, newname) (parent, name)) (
          alter a
            (moved_alias (parent, name) (newparent, newname))
            (put_child newparent newname a (put_child parent name b t.nodes))))
exchanged-Keeps t parent newparent a b name newname i ea eb other =
    let m1 = put_child parent name b t.nodes in
    let m2 = put_child newparent newname a m1 in
    let m3 = alter a (moved_alias (parent, name) (newparent, newname)) m2 in
    let k2 : Keeps t.nodes m2 =
      Keeps-trans t.nodes m1 m2 (put_child-Keeps t.nodes parent b name)
        (put_child-Keeps m1 newparent a newname) in
    let k3 : Keeps t.nodes m3 = Keeps-trans t.nodes m2 m3 k2 (
      moved_alias-Keeps m2 a (parent, name) (parent, name) (newparent, newname) (k2.base i.base)
        (ground (
          arith,
          aliased-put_child t.nodes parent b a name (parent, name),
          aliased-put_child m1 newparent a a newname (parent, name),
          i.linked parent a name,
        ))) in
    Keeps-trans t.nodes m3 _ k3 (
      moved_alias-Keeps m3 b (newparent, newname) (newparent, newname) (parent, name)
        (k3.base i.base)
        (ground (
          arith,
          aliased-put_child t.nodes parent b b name (newparent, newname),
          aliased-put_child m1 newparent a b newname (newparent, newname),
          aliased-moved_alias m2 a b (newparent, newname) (parent, name) (newparent, newname),
          i.linked newparent b newname,
        )))

unlink_same_keys :
    (t : NodeTable) (parent : ℕ) (name : Name) → (unlink t parent name).by_key ≡ t.by_key
unfolding unlink
unlink_same_keys t parent name = elim (Option-cases (child t.nodes parent name)) [
  | inl e ↦ rw (e, unlink) refl
  | inr (c, e) ↦ rw (e, unlink) refl
]

pub unlink-IsTable :
    (t : NodeTable) (parent : ℕ) (name : Name) → IsTable t → IsTable (unlink t parent name)
unlink-IsTable t parent name i =
    Keeps-IsTable t (unlink t parent name) (unlink-Keeps t parent name)
      (unlink_same_keys t parent name) (unlink-IsLinked t parent name i.linked) i

rename_same_keys :
    (t : NodeTable) (parent newparent : ℕ) (name newname : Name)
    → (rename t parent name newparent newname).by_key ≡ t.by_key
unfolding rename
rename_same_keys t parent newparent name newname = elim (Option-cases (child t.nodes parent name)) [
  | inl e ↦ rw (e, rename) refl
  | inr (c, e) ↦ elim (Bool-cases (is_child (child t.nodes newparent newname) c)) [
    | inl same ↦ rw (e, rename) (rw same refl)
    | inr other ↦ rw (e, rename) (rw other refl)
  ]
]

pub rename-IsTable :
    (t : NodeTable) (parent newparent : ℕ) (name newname : Name)
    → IsTable t
    → IsTable (rename t parent name newparent newname)
rename-IsTable t parent newparent name newname i =
    Keeps-IsTable t (rename t parent name newparent newname)
      (rename-Keeps t parent newparent name newname i)
      (rename_same_keys t parent newparent name newname)
      (rename-IsLinked t parent newparent name newname i.linked) i

pub exchange-IsTable :
    (t : NodeTable) (parent newparent : ℕ) (name newname : Name)
    → IsTable t
    → IsTable (exchange t parent name newparent newname)
unfolding exchange
exchange-IsTable t parent newparent name newname i =
    elim (Option-cases (child t.nodes parent name)) [
      | inl e ↦ rw (e, exchange) both
      | inr (a, ea) ↦ elim (Option-cases (child t.nodes newparent newname)) [
        | inl e ↦ rw (ea, exchange) (rw (e, exchange) both)
        | inr (b, eb) ↦ elim (Bool-cases (a == b)) [
          | inl same ↦ rw (ea, exchange) (rw (eb, exchange) (rw same i))
          | inr other ↦
              rw (ea, exchange)
                (rw (eb, exchange)
                  (rw other (
                    Keeps-IsTable t _
                      (exchanged-Keeps t parent newparent a b name newname i ea eb other) refl
                      (exchanged_linked a b ea eb other) i)))
        ]
      ]
    ]
  where
    both : IsTable (unlink (unlink t parent name) newparent newname)
    both = unlink-IsTable (unlink t parent name) newparent newname (unlink-IsTable t parent name i)

    exchanged :
        (a b : ℕ)
        → child t.nodes parent name ≡ some a
        → child t.nodes newparent newname ≡ some b
        → (a == b) ≡ false
        → (exchange t parent name newparent newname).nodes
          ≡ alter b (moved_alias (newparent, newname) (parent, name)) (
              alter a
                (moved_alias (parent, name) (newparent, newname))
                (put_child newparent newname a (put_child parent name b t.nodes)))
    exchanged a b ea eb other = rw (ea, exchange) (rw (eb, exchange) (rw other refl))

    exchanged_linked :
        (a b : ℕ)
        → child t.nodes parent name ≡ some a
        → child t.nodes newparent newname ≡ some b
        → (a == b) ≡ false
        → IsLinked (
            alter b (moved_alias (newparent, newname) (parent, name)) (
              alter a
                (moved_alias (parent, name) (newparent, newname))
                (put_child newparent newname a (put_child parent name b t.nodes))))
    exchanged_linked a b ea eb other =
        subst IsLinked (exchanged a b ea eb other)
          (exchange-IsLinked t parent newparent name newname i.linked)
