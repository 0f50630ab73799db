-- ===== src/Nodes/Kept/Forgets.antt =====
-- crates/client/src/inodes.rs: lookups dropped, the root described, and an alias found to be wrong.
use jackalopefs.Common.{
  ℕ, zero, suc, ◌-◌, ◌<◌, ◌≡◌, ◌≢◌, inl, inr, refl, subst, ◌∙◌, Bool-cases, true, false,
  Option-cases, none, some, List, [], ◌∷◌, arith, ◌==◌, ltb, if◌then◌else◌, lookup, insert, erase,
  alter, IsMap, get_elem?, remove_at, lookup-alter, lookup-insert, lookup-erase_ne,
  lookup-erase_self, insert-IsMap, erase-IsMap,
}
use jackalopefs.Proto.Types.{Identity}
use jackalopefs.Proto.Path.{split_last}
use jackalopefs.Nodes.Table.{
  KeyNode, Name, Alias, Node, NodeTable, root, is_empty, same_key, drop_key, child, same_alias,
}
use jackalopefs.Nodes.Ops.{drop_key_of, forgotten, forget, unlink_child, root_seen, is_child}
use jackalopefs.Nodes.Names.{without_alias_at, last_position, is_wrong, alias_was_wrong}
use jackalopefs.Nodes.Views.{same_key_iff, has_alias, aliased}
use jackalopefs.Nodes.Links.{IsLinked, forgotten-IsLinked, child-unlink_child, aliased-unlink_child}
use jackalopefs.Nodes.Kept.{IsNode, IsBase, IsTable, Keeps, key_at}
use jackalopefs.Nodes.Kept.Changes.{
  Keeps-trans, alter-Keeps, alter-IsBase, unlink_child-Keeps, unlink_children-Keeps,
}
use jackalopefs.Nodes.Kept.Names.{Keeps-IsTable}

-- A node taken away.
erase-IsBase : (m : List (ℕ × Node)) (id : ℕ) → id ≢ root → IsBase m → IsBase (erase id m)
erase-IsBase m id ne b = record {
  ids = erase-IsMap id m b.ids;
  rooted = ground (arith, b.rooted, lookup-erase_ne id root m);
  node = λ d n at. elim (Bool-cases (d == id)) [
    | inl same ↦ absurd (ground (arith, lookup-erase_self id m b.ids))
    | inr other ↦ b.node d n (ground (arith, lookup-erase_ne id d m))
  ];
}

key_at-erase :
    (m : List (ℕ × Node)) (id d : ℕ)
    → IsMap m
    → key_at (erase id m) d ≡ (if d == id then none else key_at m d)
unfolding key_at
key_at-erase m id d ids = ground (arith, lookup-erase_self id m ids, lookup-erase_ne id d m)

module _ (t : NodeTable) (id : ℕ) (n : Node) (i : IsTable t) (ne : id ≢ root)
    (there : lookup id t.nodes ≡ some n) where
  key_at-forgotten :
      (d : ℕ) → key_at (forgotten t id n).nodes d ≡ (if d == id then none else key_at t.nodes d)
  unfolding forgotten
  key_at-forgotten d =
      (unlink_children-Keeps n.aliases (erase id t.nodes) id).keys d
      ∙ key_at-erase t.nodes id d i.base.ids

  key_there : key_at t.nodes id ≡ n.key
  unfolding key_at
  key_there = ground arith

  by_key-forgotten :
      (nk k : KeyNode)
      → n.key ≡ some nk
      → (forgotten t id n).by_key k ≡ (if same_key k nk then none else t.by_key k)
  unfolding forgotten drop_key_of drop_key
  by_key-forgotten nk k e = rw e refl

  forgotten_known :
      (nk k : KeyNode) (d : ℕ)
      → n.key ≡ some nk
      → (forgotten t id n).by_key k ≡ some d
      → (d ≢ root) × (key_at (forgotten t id n).nodes d ≡ some k)
  forgotten_known nk k d e at = ground (
    arith,
    by_key-forgotten nk k e,
    i.known k d,
    key_at-forgotten d,
    key_there,
    same_key_iff k nk,
  )

  forgotten_found :
      (nk k : KeyNode) (d : ℕ)
      → n.key ≡ some nk
      → d ≢ root
      → key_at (forgotten t id n).nodes d ≡ some k
      → (forgotten t id n).by_key k ≡ some d
  forgotten_found nk k d e nd at = ground (
    arith,
    by_key-forgotten nk k e,
    i.found d k nd,
    i.found id k ne,
    key_at-forgotten d,
    key_there,
    same_key_iff k nk,
  )

  forgotten-IsTable : IsTable (forgotten t id n)
  unfolding forgotten
  forgotten-IsTable = elim (Option-cases n.key) [
    | inl no_key ↦ absurd ((i.base.node id n there).has_key ne no_key)
    | inr (nk, e) ↦ record {
      base =
          (unlink_children-Keeps n.aliases (erase id t.nodes) id).base
            (erase-IsBase t.nodes id ne i.base);
      linked = forgotten-IsLinked t id n i.base.ids there i.linked;
      known = λ k d at. forgotten_known nk k d e at;
      found = λ d k nd at. forgotten_found nk k d e nd at;
    }
  ]

-- A node whose count only goes down.
fewer-Keeps :
    (m : List (ℕ × Node)) (id count : ℕ) (n : Node)
    → lookup id m ≡ some n
    → 0 < count
    → Keeps m (insert id (record n { lookup_count = count }) m)
unfolding key_at
fewer-Keeps m id count n there pos = record {
  base = λ b. record {
    ids = insert-IsMap id (record n { lookup_count = count }) m b.ids;
    rooted = ground (arith, b.rooted, lookup-insert id root (record n { lookup_count = count }) m);
    node = λ d o at. elim (Bool-cases (d == id)) [
      | inl same ↦
          let k = b.node id n there in
          subst (λ (x : ℕ × Node). IsNode x.0 x.1)
            (same_pair d o same
              (ground (arith, lookup-insert id d (record n { lookup_count = count }) m)))
            (record { has_key = k.has_key; counted = pos; flag = k.flag; bare = k.bare })
      | inr other ↦
          b.node d o (ground (arith, lookup-insert id d (record n { lookup_count = count }) m))
    ];
  };
  keys = λ d. ground (arith, lookup-insert id d (record n { lookup_count = count }) m);
}
  where
    same_pair :
        (d : ℕ) (o : Node)
        → (d == id) ≡ true
        → record n { lookup_count = count } ≡ o
        → ◌≡◌ {A = ℕ × Node} (id, record n { lookup_count = count }) (d, o)
    same_pair d o h e = ground arith

fewer-IsLinked :
    (m : List (ℕ × Node)) (id count : ℕ) (n : Node)
    → lookup id m ≡ some n
    → IsLinked m
    → IsLinked (insert id (record n { lookup_count = count }) m)
unfolding child aliased
fewer-IsLinked m id count n there l p c x at = ground (
  arith,
  lookup-insert id p (record n { lookup_count = count }) m,
  lookup-insert id c (record n { lookup_count = count }) m,
  l p c x,
)

pub forget-IsTable : (t : NodeTable) (id n : ℕ) → IsTable t → IsTable (forget t id n).0
unfolding forget
forget-IsTable t id n i = elim (Bool-cases (id == root)) [
  | inl e ↦ rw e i
  | inr e ↦ elim (Option-cases (lookup id t.nodes)) [
    | inl absent ↦ rw e (rw (absent, forget) i)
    | inr (o, there) ↦ elim (Bool-cases (ltb n o.lookup_count)) [
      | inl fewer ↦ rw e (
          rw (there, forget)
            (rw fewer (
              Keeps-IsTable t
                (record t {
                  nodes = insert id (record o { lookup_count = o.lookup_count - n }) t.nodes;
                })
                (fewer-Keeps t.nodes id (o.lookup_count - n) o there (ground arith)) refl
                (fewer-IsLinked t.nodes id (o.lookup_count - n) o there i.linked) i)))
      | inr all ↦
          rw e (rw (there, forget) (rw all (forgotten-IsTable t id o i (ground arith) there)))
    ]
  ]
]

described : Identity → Node → Node
described i n = record n { key = some (record { ino = root; identity = i }) }

pub root_seen-IsTable : (t : NodeTable) (d : Identity) → IsTable t → IsTable (root_seen t d)
unfolding root_seen described child aliased key_at
root_seen-IsTable t d i = record {
  base =
      alter-IsBase t.nodes root (described d)
        (λ n at k. record {
          has_key = λ ne. absurd (ne refl);
          counted = k.counted;
          flag = k.flag;
          bare = k.bare;
        })
        i.base;
  linked = λ p c x at. ground (
    arith,
    lookup-alter root p (described d) t.nodes,
    lookup-alter root c (described d) t.nodes,
    i.linked p c x,
  );
  known = λ k id at.
      let was = i.known k id at in
      (was.0, ground (arith, lookup-alter root id (described d) t.nodes));
  found =
      λ id k ne at. i.found id k ne (ground (arith, lookup-alter root id (described d) t.nodes));
}

has_alias-remove_at :
    (bs : List Alias) (i : ℕ) (a b : Alias)
    → get_elem? bs i ≡ some b
    → has_alias a bs ≡ true
    → same_alias a b ≡ false
    → has_alias a (remove_at bs i) ≡ true
unfolding has_alias
has_alias-remove_at [] i a b at h ne = cc
has_alias-remove_at (c ∷ bs) zero a b at h ne = ground arith
has_alias-remove_at (c ∷ bs) (suc i) a b at h ne = ground (arith, has_alias-remove_at bs i a b at)

is_empty-remove_at :
    (bs : List Alias) (i : ℕ) → is_empty bs ≡ true → is_empty (remove_at bs i) ≡ true
unfolding is_empty
is_empty-remove_at [] i e = refl
is_empty-remove_at (b ∷ bs) i e = cc

without_alias_at-Keeps :
    (m : List (ℕ × Node)) (id place : ℕ) → Keeps m (alter id (without_alias_at place) m)
unfolding without_alias_at
without_alias_at-Keeps m id place =
    alter-Keeps m id (without_alias_at place) (λ n. refl)
      (λ n at k. record {
        has_key = k.has_key;
        counted = k.counted;
        flag = λ ne. ground (arith, k.flag ne, is_empty-remove_at n.aliases place);
        bare = λ e. rw (k.bare e) refl;
      })

wrong_alias-IsLinked :
    (m : List (ℕ × Node)) (id place : ℕ) (n : Node) (a : Alias)
    → lookup id m ≡ some n
    → get_elem? n.aliases place ≡ some a
    → IsLinked m
    → IsLinked (unlink_child id a (alter id (without_alias_at place) m))
unfolding child aliased without_alias_at is_child
wrong_alias-IsLinked m id place n a there at l p c x h = ground (
  arith,
  child-unlink_child (alter id (without_alias_at place) m) id p a x,
  aliased-unlink_child (alter id (without_alias_at place) m) id c a (p, x),
  lookup-alter id p (without_alias_at place) m,
  lookup-alter id c (without_alias_at place) m,
  has_alias-remove_at n.aliases place (p, x) a at,
  l p c x,
)

pub alias_was_wrong-IsTable :
    (t : NodeTable) (id : ℕ) (path : List Name) → IsTable t → IsTable (alias_was_wrong t id path).0
unfolding alias_was_wrong
alias_was_wrong-IsTable t id path i = elim (Option-cases (split_last path)) [
  | inl e ↦ rw (e, alias_was_wrong) i
  | inr ((dir, last), e) ↦ elim (Option-cases (lookup id t.nodes)) [
    | inl f ↦ rw (e, alias_was_wrong) (rw (f, alias_was_wrong) i)
    | inr (n, f) ↦ elim (Option-cases (last_position (is_wrong t.nodes dir last) n.aliases)) [
      | inl g ↦ rw (e, alias_was_wrong) (rw (f, alias_was_wrong) (rw (g, alias_was_wrong) i))
      | inr (place, g) ↦ elim (Option-cases (get_elem? n.aliases place)) [
        | inl h ↦
            rw (e, alias_was_wrong)
              (rw (f, alias_was_wrong) (rw (g, alias_was_wrong) (rw (h, alias_was_wrong) i)))
        | inr (a, h) ↦
            rw (e, alias_was_wrong)
              (rw (f, alias_was_wrong)
                (rw (g, alias_was_wrong) (rw (h, alias_was_wrong) (wrong id place n a i f h))))
      ]
    ]
  ]
]
  where
    wrong :
        (k place : ℕ) (n : Node) (a : Alias)
        → IsTable t
        → lookup k t.nodes ≡ some n
        → get_elem? n.aliases place ≡ some a
        → IsTable (record t { nodes = unlink_child k a (alter k (without_alias_at place) t.nodes) })
    wrong k place n a j f h =
        Keeps-IsTable t
          (record t { nodes = unlink_child k a (alter k (without_alias_at place) t.nodes) })
          (Keeps-trans t.nodes (alter k (without_alias_at place) t.nodes) _
            (without_alias_at-Keeps t.nodes k place)
            (unlink_child-Keeps (alter k (without_alias_at place) t.nodes) k a))
          refl (wrong_alias-IsLinked t.nodes k place n a f h j.linked) j
