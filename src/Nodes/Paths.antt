-- ===== src/Nodes/Paths.antt =====
-- crates/client/src/inodes.rs: the path that a node is addressed by.
use jackalopefs.Common.{
  ℕ, zero, suc, ◌≤◌, ◌≡◌, ◌≢◌, inl, inr, Bool-cases, true, Option, Option-cases, none, some, subst,
  ap, List, [], ◌∷◌, ◌++◌, arith, ◌==◌, >>=-eq-some, length, length-append, lookup,
}
use jackalopefs.Proto.Path.{from_names, path_max, to_bytes, length-to_bytes}
use jackalopefs.Nodes.Table.{Name, Alias, Node, NodeTable, root}
use jackalopefs.Nodes.Names.{newest_path, names_to, path_of, max_depth}
use jackalopefs.Nodes.Views.{has_alias, aliased, same_alias_iff}

-- The names lead from the root to the node, each an alias of the node that it leads to.
pub data Leads (m : List (ℕ × Node)) : List Name → ℕ → Type 0 where
  here : {names : List Name} {id : ℕ} → names ≡ [] → id ≡ root → Leads m names id
  down :
      {names : List Name} {id : ℕ} (above : List Name) (p : ℕ) (name : Name)
      → Leads m above p
      → aliased m (p, name) id ≡ true
      → names ≡ above ++ name ∷ []
      → Leads m names id

newest_path_found :
    (f : ℕ → Option (List Name)) (as' : List Alias) (names : List Name)
    → newest_path f as' ≡ some names
    → (above : List Name) × (p : ℕ) × (name : Name) × (f p ≡ some above)
      × (has_alias (p, name) as' ≡ true)
      × (names ≡ above ++ name ∷ [])
unfolding newest_path has_alias
newest_path_found f [] names e = cc
newest_path_found f ((p, name) ∷ as') names e = elim (Option-cases (newest_path f as')) [
  | inr (found, later) ↦
      let (above, q, last, at, has, split) = newest_path_found f as' found later in
      (above, q, last, at, ground arith, ground arith)
  | inl none_later ↦ elim (Option-cases (f p)) [
    | inl e2 ↦ absurd (ground arith)
    | inr (above, at) ↦
        (above, p, name, at, ground (arith, same_alias_iff (p, name) (p, name)), ground arith)
  ]
]

newest_path-ne-none :
    (f : ℕ → Option (List Name)) (as' : List Alias) (p : ℕ) (name : Name)
    → f p ≢ none
    → has_alias (p, name) as' ≡ true
    → newest_path f as' ≢ none
unfolding newest_path has_alias
newest_path-ne-none f [] p name h has e = cc
newest_path-ne-none f ((q, last) ∷ as') p name h has e = elim (Option-cases (newest_path f as')) [
  | inr (found, later) ↦ ground arith
  | inl none_later ↦
      ground (arith, newest_path-ne-none f as' p name h, same_alias_iff (p, name) (q, last))
]

names_to-Leads :
    (levels : ℕ) (m : List (ℕ × Node)) (id : ℕ) (names : List Name)
    → names_to levels m id ≡ some names
    → Leads m names id
unfolding names_to aliased
names_to-Leads zero m id names e = here (ground arith) (ground arith)
names_to-Leads (suc levels) m id names e = elim (Bool-cases (id == root)) [
  | inl is_root ↦ here (ground arith) (ground arith)
  | inr other ↦ elim (Option-cases (lookup id m)) [
    | inl absent ↦ absurd (ground arith)
    | inr (n, there) ↦
        let (above, p, name, at, has, split) =
          newest_path_found (names_to levels m) n.aliases names (ground arith) in
        down above p name (names_to-Leads levels m p above at) (ground arith) split
  ]
]

Leads-names_to :
    (levels : ℕ) (m : List (ℕ × Node)) (id : ℕ) (names : List Name)
    → Leads m names id
    → length names ≤ levels
    → names_to levels m id ≢ none
unfolding names_to aliased
Leads-names_to zero m id names (here e r) small bad = ground arith
Leads-names_to (suc levels) m id names (here e r) small bad = ground arith
Leads-names_to zero m id names (down above p name l has split) small bad =
    omega (arith, ap length split, length-append above (name ∷ []))
Leads-names_to (suc levels) m id names (down above p name l has split) small bad =
    elim (Bool-cases (id == root)) [
      | inl is_root ↦ ground arith
      | inr other ↦ elim (Option-cases (lookup id m)) [
        | inl absent ↦ ground arith
        | inr (n, there) ↦ ground (
          arith,
          newest_path-ne-none (names_to levels m) n.aliases p name (
              Leads-names_to levels m p above l
                (omega (arith, ap length split, length-append above (name ∷ [])))),
        )
      ]
    ]

kept_path :
    {m : List (ℕ × Node)} {id : ℕ} (names path : List Name)
    → Leads m names id
    → from_names names ≡ some path
    → Leads m path id × (length (to_bytes path) ≤ path_max)
unfolding from_names
kept_path {m} {id} names path l e =
    let same : names ≡ path = ground arith in
    (subst (λ x. Leads m x id) same l, rw (length-to_bytes path) (ground arith))

-- A path that a node is addressed by leads from the root to it, by one alias after another, and is
-- within the limit when rendered. The search for its names gives up only if none lead to the node, or
-- only more than 2048 do.
pub path_of_lem :
    (t : NodeTable) (id : ℕ)
    → ((path : List Name)
        → path_of t id ≡ some path
        → Leads t.nodes path id × (length (to_bytes path) ≤ path_max))
      × ((names : List Name)
          → Leads t.nodes names id
          → length names ≤ max_depth
          → names_to (suc max_depth) t.nodes id ≢ none)
unfolding path_of from_names
path_of_lem t id = (
  λ path e.
      let (names, found, kept) = >>=-eq-some (names_to (suc max_depth) t.nodes id) _ e in
      kept_path names path (names_to-Leads (suc max_depth) t.nodes id names found) kept,
  λ names l small. Leads-names_to (suc max_depth) t.nodes id names l (omega arith),
)
