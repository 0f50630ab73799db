-- ===== src/Nodes/Steps.antt =====
-- crates/client/src/inodes.rs: what happens to the table, one operation after another.
use jackalopefs.Common.{
  ℕ, ◌≡◌, ◌≢◌, inl, inr, refl, subst, Bool-cases, true, false, Option, none, some, some-injective,
  List, [], ◌∷◌, arith, ◌==◌, if◌then◌else◌, ◌>>=◌, >>=-eq-some, is_key,
}
use jackalopefs.Proto.Types.{FileKind, Identity}
use jackalopefs.Nodes.Table.{Seen, Name, NodeTable, root, is_empty, key_of, child}
use jackalopefs.Nodes.Numbers.{id_for}
use jackalopefs.Nodes.Ops.{insert_lookup, register, root_seen, forget, unlink, rename, exchange}
use jackalopefs.Nodes.Names.{alias_was_wrong}
use jackalopefs.Nodes.Views.{aliased}
use jackalopefs.Nodes.Links.{register-links}
use jackalopefs.Nodes.Kept.{IsTable, key_at}
use jackalopefs.Nodes.Kept.Names.{unlink-IsTable, rename-IsTable, exchange-IsTable}
use jackalopefs.Nodes.Kept.Files.{id_for_cases, id_for-IsNumber, register-IsTable, key_at-register}
use jackalopefs.Nodes.Kept.Forgets.{forget-IsTable, root_seen-IsTable, alias_was_wrong-IsTable}

pub data Action : Type 0 where
  looks_up : (parent : ℕ) (name : Name) (seen : Seen) → Action
  sees_root : Identity → Action
  forgets : (id lookups : ℕ) → Action
  unlinks : (parent : ℕ) (name : Name) → Action
  renames exchanges : (parent : ℕ) (name : Name) (newparent : ℕ) (newname : Name) → Action
  finds_wrong : (id : ℕ) (path : List Name) → Action

-- `NodeTable::new`.
unfoldable pub new : NodeTable
new = record {
  nodes =
      (
        root,
        record {
          aliases = [];
          lookup_count = 1;
          key = none;
          unlinked = false;
          kind = FileKind.directory;
          children = λ n. none;
        },
      )
      ∷ [];
  by_key = λ k. none;
}

-- One operation; `none` only if the search for a number finds none.
unfoldable pub step : NodeTable → Action → Option NodeTable
step t (Action.looks_up parent name seen) = do (t', _) ← insert_lookup t parent name seen; some t'
step t (Action.sees_root i) = some (root_seen t i)
step t (Action.forgets id lookups) = some (forget t id lookups).0
step t (Action.unlinks parent name) = some (unlink t parent name)
step t (Action.renames parent name newparent newname) =
    some (rename t parent name newparent newname)
step t (Action.exchanges parent name newparent newname) =
    some (exchange t parent name newparent newname)
step t (Action.finds_wrong id path) = some (alias_was_wrong t id path).0

unfoldable pub run : NodeTable → List Action → Option NodeTable
run t [] = some t
run t (a ∷ acts) = do t' ← step t a; run t' acts

-- The answer of `insert_lookup`, if it is not the root.
answered :
    (u : NodeTable) (found id : ℕ) (t : NodeTable) (parent : ℕ) (name : Name) (s : Seen)
    → if◌then◌else◌ {A = Option (NodeTable × Option ℕ)}
        (found == root)
        (some (t, none))
        (some (register t parent name s found, some found))
      ≡ some (u, some id)
    → (found ≡ id) × (id ≢ root) × (register t parent name s id ≡ u)
answered u found id t parent name s e = ground arith

insert_lookup-IsTable :
    (t u : NodeTable) (parent : ℕ) (name : Name) (s : Seen) (answer : Option ℕ)
    → insert_lookup t parent name s ≡ some (u, answer)
    → IsTable t
    → IsTable u
unfolding insert_lookup
insert_lookup-IsTable t u parent name s answer e i =
    let (id, found, rest) = >>=-eq-some (id_for t s) _ e in
    elim (Bool-cases (id == root)) [
      | inl is_root ↦ subst IsTable (ground arith) i
      | inr other ↦ subst IsTable (ground arith) (
          register-IsTable t parent id name s i (id_for-IsNumber t s id i found (ground arith))
            (ground (arith, id_for_cases t s id found)))
    ]

pub step-IsTable : (t u : NodeTable) (a : Action) → step t a ≡ some u → IsTable t → IsTable u
unfolding step
step-IsTable t u (Action.looks_up parent name seen) e i =
    let ((u', answer), did, rest) = >>=-eq-some (insert_lookup t parent name seen) _ e in
    subst IsTable (some-injective _ _ rest)
      (insert_lookup-IsTable t u' parent name seen answer did i)
step-IsTable t u (Action.sees_root d) e i =
    subst IsTable (some-injective _ _ e) (root_seen-IsTable t d i)
step-IsTable t u (Action.forgets id lookups) e i =
    subst IsTable (some-injective _ _ e) (forget-IsTable t id lookups i)
step-IsTable t u (Action.unlinks parent name) e i =
    subst IsTable (some-injective _ _ e) (unlink-IsTable t parent name i)
step-IsTable t u (Action.renames parent name newparent newname) e i =
    subst IsTable (some-injective _ _ e) (rename-IsTable t parent newparent name newname i)
step-IsTable t u (Action.exchanges parent name newparent newname) e i =
    subst IsTable (some-injective _ _ e) (exchange-IsTable t parent newparent name newname i)
step-IsTable t u (Action.finds_wrong id path) e i =
    subst IsTable (some-injective _ _ e) (alias_was_wrong-IsTable t id path i)

pub new-IsTable : IsTable new
unfolding new child key_at is_empty
new-IsTable = record {
  base = record {
    ids = tt;
    rooted = refl;
    node = λ id n at. record {
      has_key = λ ne. ground arith;
      counted = ground arith;
      flag = λ ne. ground arith;
      bare = λ r. ground arith;
    };
  };
  linked = λ p c x at. ground arith;
  known = λ k id at. cc;
  found = λ id k ne at. ground arith;
}

run_from : (t u : NodeTable) (acts : List Action) → run t acts ≡ some u → IsTable t → IsTable u
unfolding run
run_from t u [] e i = subst IsTable (some-injective _ _ e) i
run_from t u (a ∷ acts) e i =
    let (m, did, rest) = >>=-eq-some (step t a) _ e in
    run_from m u acts rest (step-IsTable t m a did i)

-- The table stays sound through every history of its operations: `by_key` finds exactly the files of
-- the nodes, so that no two nodes but the root are of one file; what a directory names is in the table
-- and has that name among its aliases; every node has been looked up, and is flagged as unlinked
-- exactly when it has no alias; and the root stays, with no alias.
pub run-IsTable : (t : NodeTable) (acts : List Action) → run new acts ≡ some t → IsTable t
run-IsTable t acts e = run_from new t acts e new-IsTable

-- Of a table that was reached so, a lookup that does not answer with the root answers with a node that
-- is of the file seen and of no other, and that is the only one of that file but the root; it has the
-- name looked up, and the directory, if it is in the table, names it so; every other node keeps its
-- file.
pub insert_lookup_lem :
    (t u : NodeTable) (acts : List Action) (parent id : ℕ) (name : Name) (s : Seen)
    → run new acts ≡ some t
    → insert_lookup t parent name s ≡ some (u, some id)
    → (id ≢ root)
      × (key_at u.nodes id ≡ some (key_of s))
      × ((d : ℕ) → d ≢ root → key_at u.nodes d ≡ some (key_of s) → d ≡ id)
      × ((d : ℕ) → d ≢ id → key_at u.nodes d ≡ key_at t.nodes d)
      × (aliased u.nodes (parent, name) id ≡ true)
      × (is_key parent t.nodes ≡ true → child u.nodes parent name ≡ some id)
unfolding insert_lookup
insert_lookup_lem t u acts parent id name s ran e =
    let i = run-IsTable t acts ran in
    let (found_id, found, rest) = >>=-eq-some (id_for t s) _ e in
    let (same, ne, now) = answered u found_id id t parent name s rest in
    let number = id_for-IsNumber t s id i (ground arith) ne in
    let j = insert_lookup-IsTable t u parent name s (some id) e i in
    let keys : (d : ℕ)
        → key_at u.nodes d ≡ (if d == id then some (key_of s) else key_at t.nodes d) =
      λ d.
        subst
          (λ (x : NodeTable).
            key_at x.nodes d ≡ (if d == id then some (key_of s) else key_at t.nodes d))
          now (key_at-register t parent id d name s number) in
    let own : key_at u.nodes id ≡ some (key_of s) = ground (arith, keys id) in
    (
      ne,
      own,
      λ d nd at. ground (arith, j.found d (key_of s) nd at, j.found id (key_of s) ne own),
      λ d nd. ground (arith, keys d),
      subst (λ (x : NodeTable). aliased x.nodes (parent, name) id ≡ true) now
          (register-links t parent id name s).0,
      λ here.
          subst (λ (x : NodeTable). child x.nodes parent name ≡ some id) now
            ((register-links t parent id name s).1 here),
    )
