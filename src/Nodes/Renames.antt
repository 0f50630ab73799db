-- ===== src/Nodes/Renames.antt =====
-- crates/client/src/inodes.rs: what unlink and rename do to the names of a reached table.
use jackalopefs.Common.{
  ℕ, ◌≡◌, ◌≢◌, ◌⊎◌, inl, inr, true, false, ◌&&◌, ◌||◌, not, Bool-cases, Option-cases, none, some,
  List, arith, ◌==◌, if◌then◌else◌, is_key,
}
use jackalopefs.Nodes.Table.{Name, Alias, Node, NodeTable, same_alias, child, drop_child, drop_name}
use jackalopefs.Nodes.Ops.{is_child, replace_child, unlink, rename}
use jackalopefs.Nodes.Views.{
  same_bytes_iff, aliased, child-drop_child, aliased-drop_child, child-drop_alias,
  aliased-drop_alias, child-moved_alias, aliased-moved_alias, child-replace_child,
  aliased-replace_child, is_key-replace_child, is_key-alter, aliased-is_key,
}
use jackalopefs.Nodes.Steps.{Action, new, run, run-IsTable}

-- Another directory, or another name.
abbrev pub IsOther : Alias → Alias → Type 0
IsOther (q, y) (p, x) = (q ≢ p) ⊎ (y ≢ x)

module _ (t : NodeTable) (parent c : ℕ) (name : Name)
    (there : child t.nodes parent name ≡ some c) where
  child-unlink :
      (q : ℕ) (y : Name)
      → child (unlink t parent name).nodes q y
        ≡ (if same_alias (q, y) (parent, name) then none else child t.nodes q y)
  unfolding unlink same_alias
  child-unlink q y =
      let m1 = drop_child parent name t.nodes in
      ground (
        arith,
        there,
        child-drop_alias m1 c q (parent, name) y,
        child-drop_child t.nodes parent q name y,
      )

  aliased-unlink :
      (d : ℕ) (a : Alias)
      → aliased (unlink t parent name).nodes a d
        ≡ (aliased t.nodes a d && not (d == c && same_alias a (parent, name)))
  unfolding unlink
  aliased-unlink d a =
      let m1 = drop_child parent name t.nodes in
      ground (
        arith,
        there,
        aliased-drop_alias m1 c d a (parent, name),
        aliased-drop_child t.nodes parent d name a,
      )

-- When a name that a directory gives to a node is unlinked, the directory has that name no more and the
-- node no more that alias; every other name of any directory, and every other alias of any node, is as
-- it was.
pub unlink_lem :
    (t : NodeTable) (parent c : ℕ) (name : Name)
    → child t.nodes parent name ≡ some c
    → let u = unlink t parent name in
      (child u.nodes parent name ≡ none)
      × (aliased u.nodes (parent, name) c ≡ false)
      × ((q : ℕ) (y : Name) → IsOther (q, y) (parent, name) → child u.nodes q y ≡ child t.nodes q y)
      × ((q d : ℕ) (y : Name)
          → (d ≢ c) ⊎ IsOther (q, y) (parent, name)
          → aliased u.nodes (q, y) d ≡ aliased t.nodes (q, y) d)
unfolding same_alias
unlink_lem t parent c name there = (
  ground (arith, child-unlink t parent c name there parent name, same_bytes_iff name name),
  ground (arith, aliased-unlink t parent c name there c (parent, name), same_bytes_iff name name),
  λ q y other. ground (arith, child-unlink t parent c name there q y, same_bytes_iff y name),
  λ q d y other.
      ground (arith, aliased-unlink t parent c name there d (q, y), same_bytes_iff y name),
)

is_key-drop_child :
    (m : List (ℕ × Node)) (p k : ℕ) (x : Name) → is_key k (drop_child p x m) ≡ is_key k m
unfolding drop_child
is_key-drop_child m p k x =
    is_key-alter m k p (λ (n : Node). record n { children = drop_name x n.children })

module _ (t : NodeTable) (parent newparent c : ℕ) (name newname : Name)
    (there : child t.nodes parent name ≡ some c)
    (moves : is_child (child t.nodes newparent newname) c ≡ false) where
  child-rename :
      (q : ℕ) (y : Name)
      → child (rename t parent name newparent newname).nodes q y ≡ (
          if same_alias (q, y) (newparent, newname) && is_key newparent t.nodes
          then some c
          else if same_alias (q, y) (parent, name)
          then none
          else child t.nodes q y)
  unfolding rename same_alias
  child-rename q y =
      let m1 = drop_child parent name t.nodes in
      let m2 = replace_child newparent newname c m1 in
      ground (
        arith,
        there,
        moves,
        child-moved_alias m2 c q (parent, name) (newparent, newname) y,
        child-replace_child m1 newparent c q newname y,
        child-drop_child t.nodes parent q name y,
        is_key-drop_child t.nodes parent newparent name,
      )

  aliased-rename :
      (d : ℕ) (a : Alias)
      → aliased t.nodes (parent, name) c ≡ true
      → aliased (rename t parent name newparent newname).nodes a d ≡ (
          if d == c
          then (aliased t.nodes a c && not (same_alias a (parent, name)))
            || same_alias a (newparent, newname)
          else aliased t.nodes a d
            && not
                (same_alias a (newparent, newname) && is_child (child t.nodes newparent newname) d))
  unfolding rename is_child same_alias
  aliased-rename d a linked =
      let m1 = drop_child parent name t.nodes in
      let m2 = replace_child newparent newname c m1 in
      ground (
        arith,
        there,
        moves,
        aliased-moved_alias m2 c d a (parent, name) (newparent, newname),
        aliased-replace_child m1 newparent c d newname a,
        aliased-drop_child t.nodes parent d name a,
        child-drop_child t.nodes parent newparent name newname,
        is_key-replace_child m1 c newparent c newname,
        is_key-drop_child t.nodes parent c name,
        aliased-is_key t.nodes (parent, name) c linked,
        same_bytes_iff newname name,
      )

not_child :
    (t : NodeTable) (p c : ℕ) (x : Name)
    → child t.nodes p x ≢ some c
    → is_child (child t.nodes p x) c ≡ false
unfolding is_child
not_child t p c x ne = elim (Option-cases (child t.nodes p x)) [
  | inl e ↦ ground arith
  | inr (b, e) ↦ elim (Bool-cases (b == c)) [
    | inl same ↦ absurd (ne (ground arith))
    | inr other ↦ ground arith
  ]
]

names_differ :
    (t : NodeTable) (parent newparent c : ℕ) (name newname : Name)
    → child t.nodes parent name ≡ some c
    → child t.nodes newparent newname ≢ some c
    → parent ≡ newparent
    → name ≢ newname
names_differ t parent newparent c name newname there ne p x = ne (cc)

-- Of a reached table: when a name that a directory gives to a node becomes another name, which was not
-- the node's, the directory has the old name no more and the other one, if it is in the table, has the
-- new name for the node. The node has the new name as an alias and not the old one, and what had the
-- new name before has that alias no more. Every other name of any directory, and every other alias of
-- any node, is as it was.
pub rename_lem :
    (t : NodeTable) (acts : List Action) (parent newparent c : ℕ) (name newname : Name)
    → run new acts ≡ some t
    → child t.nodes parent name ≡ some c
    → child t.nodes newparent newname ≢ some c
    → let u = rename t parent name newparent newname in
      (child u.nodes parent name ≡ none)
      × (is_key newparent t.nodes ≡ true → child u.nodes newparent newname ≡ some c)
      × (aliased u.nodes (newparent, newname) c ≡ true)
      × (aliased u.nodes (parent, name) c ≡ false)
      × ((d : ℕ)
          → child t.nodes newparent newname ≡ some d
          → aliased u.nodes (newparent, newname) d ≡ false)
      × ((q : ℕ) (y : Name)
          → IsOther (q, y) (parent, name)
          → IsOther (q, y) (newparent, newname)
          → child u.nodes q y ≡ child t.nodes q y)
      × ((q d : ℕ) (y : Name)
          → IsOther (q, y) (parent, name)
          → IsOther (q, y) (newparent, newname)
          → aliased u.nodes (q, y) d ≡ aliased t.nodes (q, y) d)
unfolding same_alias is_child
rename_lem t acts parent newparent c name newname ran there ne =
    let linked = (run-IsTable t acts ran).linked parent c name there in
    let moves = not_child t newparent c newname ne in
    let children =
      λ (q : ℕ) (y : Name). child-rename t parent newparent c name newname there moves q y in
    let aliases = λ (d : ℕ) (a : Alias).
      aliased-rename t parent newparent c name newname there moves d a linked in
    let differs = names_differ t parent newparent c name newname there ne in
    (
      ground (
        arith,
        children parent name,
        same_bytes_iff name newname,
        same_bytes_iff name name,
        differs,
      ),
      λ here. ground (arith, children newparent newname, same_bytes_iff newname newname),
      ground (arith, aliases c (newparent, newname), same_bytes_iff newname newname),
      ground (
        arith,
        aliases c (parent, name),
        same_bytes_iff name name,
        same_bytes_iff name newname,
        differs,
      ),
      λ d was. ground (arith, aliases d (newparent, newname), same_bytes_iff newname newname),
      λ q y old fresh.
          ground (arith, children q y, same_bytes_iff y name, same_bytes_iff y newname),
      λ q d y old fresh.
          ground (arith, aliases d (q, y), same_bytes_iff y name, same_bytes_iff y newname),
    )
