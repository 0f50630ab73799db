-- ===== src/Nodes/Kept/Changes.antt =====
-- crates/client/src/inodes.rs: the changes of nodes that keep each node's file.
use jackalopefs.Common.{
  ℕ, ◌≡◌, inl, inr, refl, sym, subst, ◌∙◌, Bool-cases, true, Option, Option-cases, some, List, [],
  ◌∷◌, arith, ◌==◌, lookup, alter, lookup-alter, alter-IsMap,
}
use jackalopefs.Nodes.Table.{
  Name, Alias, Node, root, is_empty, without, without_alias, drop_alias, child, put_name, drop_name,
  put_child, drop_child,
}
use jackalopefs.Nodes.Ops.{replace_child, unlink_child, unlink_children}
use jackalopefs.Nodes.Views.{is_key-alter}
use jackalopefs.Nodes.Kept.{IsNode, IsBase, Keeps, key_at}

pub Keeps-trans : (m m' m'' : List (ℕ × Node)) → Keeps m m' → Keeps m' m'' → Keeps m m''
Keeps-trans m m' m'' f g = record {
  base = λ b. g.base (f.base b);
  keys = λ id. g.keys id ∙ f.keys id;
}

pub Keeps-refl : (m : List (ℕ × Node)) → Keeps m m
Keeps-refl m = record { base = λ b. b; keys = λ id. refl }

altered :
    (m : List (ℕ × Node)) (k id : ℕ) (f : Node → Node) (n o : Node)
    → lookup id (alter k f m) ≡ some n
    → (id == k) ≡ true
    → lookup id m ≡ some o
    → (id ≡ k) × (f o ≡ n)
altered m k id f n o at e there = ground (arith, lookup-alter k id f m)

-- A node changed in place.
pub alter-IsBase :
    (m : List (ℕ × Node)) (k : ℕ) (f : Node → Node)
    → ((n : Node) → lookup k m ≡ some n → IsNode k n → IsNode k (f n))
    → IsBase m
    → IsBase (alter k f m)
alter-IsBase m k f kept b = record {
  ids = alter-IsMap k f m b.ids;
  rooted = is_key-alter m root k f ∙ b.rooted;
  node = λ id n at. elim (Bool-cases (id == k)) [
    | inl e ↦ elim (Option-cases (lookup id m)) [
      | inl none_there ↦ absurd (ground (arith, lookup-alter k id f m))
      | inr (o, there) ↦
          let (same, now) = altered m k id f n o at e there in
          subst (λ j. IsNode j n) (sym same)
            (subst (IsNode k) now (
              kept o (subst (λ j. lookup j m ≡ some o) same there)
                (subst (λ j. IsNode j o) same (b.node id o there))))
    ]
    | inr e ↦ b.node id n (ground (arith, lookup-alter k id f m))
  ];
}

key_at-alter :
    (m : List (ℕ × Node)) (k id : ℕ) (f : Node → Node)
    → ((n : Node) → (f n).key ≡ n.key)
    → key_at (alter k f m) id ≡ key_at m id
unfolding key_at
key_at-alter m k id f same = elim (Option-cases (lookup id m)) [
  | inl e ↦ ground (arith, lookup-alter k id f m)
  | inr (n, e) ↦ ground (arith, lookup-alter k id f m, same n)
]

pub alter-Keeps :
    (m : List (ℕ × Node)) (k : ℕ) (f : Node → Node)
    → ((n : Node) → (f n).key ≡ n.key)
    → ((n : Node) → lookup k m ≡ some n → IsNode k n → IsNode k (f n))
    → Keeps m (alter k f m)
alter-Keeps m k f same kept = record {
  base = alter-IsBase m k f kept;
  keys = λ id. key_at-alter m k id f same;
}

is_empty-without :
    (a : Alias) (as' : List Alias) → is_empty as' ≡ true → is_empty (without a as') ≡ true
unfolding is_empty without
is_empty-without a [] h = refl
is_empty-without a (b ∷ bs) h = cc

pub without_alias-IsNode :
    (id : ℕ) (a : Alias) (n : Node) → IsNode id n → IsNode id (without_alias a n)
unfolding without_alias without
without_alias-IsNode id a n k = record {
  has_key = k.has_key;
  counted = k.counted;
  flag = λ ne. ground (arith, k.flag ne, is_empty-without a n.aliases);
  bare = λ e. rw (k.bare e) refl;
}

pub drop_alias-Keeps : (m : List (ℕ × Node)) (id : ℕ) (a : Alias) → Keeps m (drop_alias id a m)
unfolding drop_alias without_alias
drop_alias-Keeps m id a =
    alter-Keeps m id (without_alias a) (λ n. refl) (λ n at k. without_alias-IsNode id a n k)

children-IsNode :
    (id : ℕ) (n : Node) (f : Name → Option ℕ) → IsNode id n → IsNode id (record n { children = f })
children-IsNode id n f k = record {
  has_key = k.has_key;
  counted = k.counted;
  flag = k.flag;
  bare = k.bare;
}

pub put_child-Keeps : (m : List (ℕ × Node)) (p c : ℕ) (x : Name) → Keeps m (put_child p x c m)
unfolding put_child
put_child-Keeps m p c x =
    alter-Keeps m p (λ n. record n { children = put_name x c n.children }) (λ n. refl)
      (λ n at k. children-IsNode p n (put_name x c n.children) k)

pub drop_child-Keeps : (m : List (ℕ × Node)) (p : ℕ) (x : Name) → Keeps m (drop_child p x m)
unfolding drop_child
drop_child-Keeps m p x =
    alter-Keeps m p (λ n. record n { children = drop_name x n.children }) (λ n. refl)
      (λ n at k. children-IsNode p n (drop_name x n.children) k)

pub replace_child-Keeps :
    (m : List (ℕ × Node)) (p c : ℕ) (x : Name) → Keeps m (replace_child p x c m)
unfolding replace_child
replace_child-Keeps m p c x = elim (Option-cases (child m p x)) [
  | inl e ↦ rw (e, replace_child) (put_child-Keeps m p c x)
  | inr (b, e) ↦ elim (Bool-cases (b == c)) [
    | inl same ↦ rw (e, replace_child) (rw same (put_child-Keeps m p c x))
    | inr other ↦
        rw (e, replace_child)
          (rw other (
            Keeps-trans m (put_child p x c m) _ (put_child-Keeps m p c x)
              (drop_alias-Keeps (put_child p x c m) b (p, x))))
  ]
]

pub unlink_child-Keeps : (m : List (ℕ × Node)) (id : ℕ) (a : Alias) → Keeps m (unlink_child id a m)
unfolding unlink_child
unlink_child-Keeps m id (p, x) = elim (Option-cases (child m p x)) [
  | inl e ↦ rw (e, unlink_child) (Keeps-refl m)
  | inr (c, e) ↦ elim (Bool-cases (c == id)) [
    | inl same ↦ rw (e, unlink_child) (rw same (drop_child-Keeps m p x))
    | inr other ↦ rw (e, unlink_child) (rw other (Keeps-refl m))
  ]
]

pub unlink_children-Keeps :
    (as' : List Alias) (m : List (ℕ × Node)) (id : ℕ) → Keeps m (unlink_children id as' m)
unfolding unlink_children
unlink_children-Keeps [] m id = Keeps-refl m
unlink_children-Keeps (a ∷ as') m id =
    Keeps-trans m (unlink_child id a m) _ (unlink_child-Keeps m id a)
      (unlink_children-Keeps as' (unlink_child id a m) id)
