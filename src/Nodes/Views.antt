-- ===== src/Nodes/Views.antt =====
-- crates/client/src/inodes.rs: what the changes of the table do to its children and its aliases.
use jackalopefs.Common.{
  ℕ, ◌≡◌, ◌↔◌, inl, inr, refl, Bool, true, false, not, ◌&&◌, ◌||◌, Option-cases, none, some, List,
  [], ◌∷◌, ◌++◌, arith, ◌==◌, if◌then◌else◌, lookup, alter, is_key, lookup-alter, lookup-insert,
}
use jackalopefs.Proto.Types.{Identity, FileKind}
use jackalopefs.Proto.Owners.Acl.{same_bytes}
use jackalopefs.Nodes.Table.{
  Name, Alias, KeyNode, Node, same_identity, same_key, same_alias, put_name, drop_name, child,
  put_child, drop_child, drop_alias, without, without_alias, moved_alias, Seen,
}
use jackalopefs.Nodes.Ops.{is_child, replace_child, looked_up, fresh_node, ensure_node}

pub same_bytes_iff : (a b : List ℕ) → (same_bytes a b ≡ true) ↔ (a ≡ b)
unfolding same_bytes
same_bytes_iff [] [] = ground arith
same_bytes_iff [] (y ∷ b) = ground arith
same_bytes_iff (x ∷ a) [] = ground arith
same_bytes_iff (x ∷ a) (y ∷ b) = ground (arith, same_bytes_iff a b)

pub same_identity-eq : (a b : Identity) → same_identity a b ≡ true → a ≡ b
unfolding same_identity
same_identity-eq a b h = ground (arith, same_bytes_iff a.handle b.handle)

pub same_key_iff : (a b : KeyNode) → (same_key a b ≡ true) ↔ (a ≡ b)
unfolding same_key same_identity
same_key_iff a b = ground (arith, same_bytes_iff a.identity.handle b.identity.handle)

pub same_alias_iff : (a b : Alias) → (same_alias a b ≡ true) ↔ (a ≡ b)
unfolding same_alias
same_alias_iff (p, n) (q, m) = ground (arith, same_bytes_iff n m)

unfoldable pub has_alias : Alias → List Alias → Bool
has_alias a [] = false
has_alias a (b ∷ bs) = same_alias a b || has_alias a bs

pub has_alias-without :
    (a b : Alias) (bs : List Alias)
    → has_alias a (without b bs) ≡ (has_alias a bs && not (same_alias a b))
unfolding has_alias without
has_alias-without a b [] = refl
has_alias-without a b (c ∷ bs) =
    ground
      (arith, has_alias-without a b bs, same_alias_iff a c, same_alias_iff a b, same_alias_iff c b)

pub has_alias-append :
    (a b : Alias) (bs : List Alias)
    → has_alias a (bs ++ b ∷ []) ≡ (has_alias a bs || same_alias a b)
unfolding has_alias
has_alias-append a b [] = ground arith
has_alias-append a b (c ∷ bs) = ground (arith, has_alias-append a b bs)

-- The node `c` has the alias.
unfoldable pub aliased : List (ℕ × Node) → Alias → ℕ → Bool
unfolding has_alias
aliased m a c = elim (lookup c m) [ none ↦ false | some n ↦ has_alias a n.aliases ]

pub child-put_child :
    (m : List (ℕ × Node)) (p c q : ℕ) (x y : Name)
    → child (put_child p x c m) q y
      ≡ (if q == p && same_bytes y x && is_key p m then some c else child m q y)
unfolding child put_child put_name
child-put_child m p c q x y =
    ground
      (arith, lookup-alter p q (λ (n : Node). record n { children = put_name x c n.children }) m)

pub child-drop_child :
    (m : List (ℕ × Node)) (p q : ℕ) (x y : Name)
    → child (drop_child p x m) q y ≡ (if q == p && same_bytes y x then none else child m q y)
unfolding child drop_child drop_name
child-drop_child m p q x y =
    ground
      (arith, lookup-alter p q (λ (n : Node). record n { children = drop_name x n.children }) m)

pub aliased-put_child :
    (m : List (ℕ × Node)) (p c d : ℕ) (x : Name) (a : Alias)
    → aliased (put_child p x c m) a d ≡ aliased m a d
unfolding aliased put_child
aliased-put_child m p c d x a =
    ground
      (arith, lookup-alter p d (λ (n : Node). record n { children = put_name x c n.children }) m)

pub aliased-drop_child :
    (m : List (ℕ × Node)) (p d : ℕ) (x : Name) (a : Alias)
    → aliased (drop_child p x m) a d ≡ aliased m a d
unfolding aliased drop_child
aliased-drop_child m p d x a =
    ground
      (arith, lookup-alter p d (λ (n : Node). record n { children = drop_name x n.children }) m)

pub child-drop_alias :
    (m : List (ℕ × Node)) (c q : ℕ) (a : Alias) (y : Name)
    → child (drop_alias c a m) q y ≡ child m q y
unfolding child drop_alias without_alias
child-drop_alias m c q a y = ground (arith, lookup-alter c q (without_alias a) m)

pub aliased-drop_alias :
    (m : List (ℕ × Node)) (c d : ℕ) (a b : Alias)
    → aliased (drop_alias c b m) a d ≡ (aliased m a d && not (d == c && same_alias a b))
unfolding aliased drop_alias without_alias
aliased-drop_alias m c d a b = elim (Option-cases (lookup d m)) [
  | inl e ↦ ground (arith, lookup-alter c d (without_alias b) m)
  | inr (n, e) ↦
      ground (arith, lookup-alter c d (without_alias b) m, has_alias-without a b n.aliases)
]

pub child-moved_alias :
    (m : List (ℕ × Node)) (c q : ℕ) (old new : Alias) (y : Name)
    → child (alter c (moved_alias old new) m) q y ≡ child m q y
unfolding child moved_alias
child-moved_alias m c q old new y = ground (arith, lookup-alter c q (moved_alias old new) m)

pub aliased-moved_alias :
    (m : List (ℕ × Node)) (c d : ℕ) (a old new : Alias)
    → aliased (alter c (moved_alias old new) m) a d ≡ (
        if d == c && is_key c m
        then (aliased m a d && not (same_alias a old)) || same_alias a new
        else aliased m a d)
unfolding aliased moved_alias
aliased-moved_alias m c d a old new = elim (Option-cases (lookup d m)) [
  | inl e ↦ ground (arith, lookup-alter c d (moved_alias old new) m)
  | inr (n, e) ↦ ground (
    arith,
    lookup-alter c d (moved_alias old new) m,
    has_alias-append a new (without old n.aliases),
    has_alias-without a old n.aliases,
  )
]

pub is_key-alter :
    (m : List (ℕ × Node)) (k j : ℕ) (f : Node → Node) → is_key k (alter j f m) ≡ is_key k m
is_key-alter m k j f = elim (Option-cases (lookup k m)) [
  | inl e ↦ ground (arith, lookup-alter j k f m)
  | inr (n, e) ↦ ground (arith, lookup-alter j k f m)
]

pub aliased-is_key :
    (m : List (ℕ × Node)) (a : Alias) (c : ℕ) → aliased m a c ≡ true → is_key c m ≡ true
unfolding aliased
aliased-is_key m a c h = ground arith

pub child-is_key :
    (m : List (ℕ × Node)) (p c : ℕ) (x : Name) → child m p x ≡ some c → is_key p m ≡ true
unfolding child
child-is_key m p c x h = ground arith

pub child-replace_child :
    (m : List (ℕ × Node)) (p c q : ℕ) (x y : Name)
    → child (replace_child p x c m) q y
      ≡ (if q == p && same_bytes y x && is_key p m then some c else child m q y)
unfolding replace_child
child-replace_child m p c q x y = elim (Option-cases (child m p x)) [
  | inl e ↦ ground (arith, child-put_child m p c q x y)
  | inr (d, e) ↦
      ground (arith, child-put_child m p c q x y, child-drop_alias (put_child p x c m) d q (p, x) y)
]

pub aliased-replace_child :
    (m : List (ℕ × Node)) (p c d : ℕ) (x : Name) (a : Alias)
    → aliased (replace_child p x c m) a d
      ≡ (aliased m a d && not (same_alias a (p, x) && not (d == c) && is_child (child m p x) d))
unfolding replace_child is_child
aliased-replace_child m p c d x a = elim (Option-cases (child m p x)) [
  | inl e ↦ ground (arith, aliased-put_child m p c d x a)
  | inr (b, e) ↦
      ground
        (arith, aliased-put_child m p c d x a, aliased-drop_alias (put_child p x c m) b d a (p, x))
]

pub is_key-replace_child :
    (m : List (ℕ × Node)) (k p c : ℕ) (x : Name) → is_key k (replace_child p x c m) ≡ is_key k m
unfolding replace_child put_child drop_alias
is_key-replace_child m k p c x = elim (Option-cases (child m p x)) [
  | inl e ↦
      ground
        (arith, is_key-alter m k p (λ (n : Node). record n { children = put_name x c n.children }))
  | inr (b, e) ↦ ground (
    arith,
    is_key-alter m k p (λ (n : Node). record n { children = put_name x c n.children }),
    is_key-alter (put_child p x c m) k b (without_alias (p, x)),
  )
]

pub child-looked_up :
    (m : List (ℕ × Node)) (c q : ℕ) (a : Alias) (kind : FileKind) (y : Name)
    → child (alter c (looked_up a kind) m) q y ≡ child m q y
unfolding child looked_up
child-looked_up m c q a kind y = ground (arith, lookup-alter c q (looked_up a kind) m)

pub aliased-looked_up :
    (m : List (ℕ × Node)) (c d : ℕ) (a b : Alias) (kind : FileKind)
    → aliased (alter c (looked_up b kind) m) a d
      ≡ (if d == c && is_key c m then aliased m a d || same_alias a b else aliased m a d)
unfolding aliased looked_up
aliased-looked_up m c d a b kind = elim (Option-cases (lookup d m)) [
  | inl e ↦ ground (arith, lookup-alter c d (looked_up b kind) m)
  | inr (n, e) ↦ ground (
    arith,
    lookup-alter c d (looked_up b kind) m,
    has_alias-append a b (without b n.aliases),
    has_alias-without a b n.aliases,
  )
]

pub child-ensure_node :
    (m : List (ℕ × Node)) (id q : ℕ) (s : Seen) (y : Name)
    → child (ensure_node id s m) q y ≡ child m q y
unfolding child ensure_node fresh_node
child-ensure_node m id q s y = ground (arith, lookup-insert id q (fresh_node s) m)

pub aliased-ensure_node :
    (m : List (ℕ × Node)) (id d : ℕ) (s : Seen) (a : Alias)
    → aliased (ensure_node id s m) a d ≡ aliased m a d
unfolding aliased ensure_node fresh_node has_alias
aliased-ensure_node m id d s a = ground (arith, lookup-insert id d (fresh_node s) m)

pub is_key-ensure_node :
    (m : List (ℕ × Node)) (id : ℕ) (s : Seen) → is_key id (ensure_node id s m) ≡ true
unfolding ensure_node
is_key-ensure_node m id s = ground (arith, lookup-insert id id (fresh_node s) m)
