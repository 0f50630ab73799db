-- ===== src/Nodes/Table.antt =====
-- crates/client/src/inodes.rs: `NodeTable`, with what each method does. A hash map is a function where
-- nothing lists it; the table of nodes is a list, since `id_for` probes it. `none` of a method is its
-- own; the root is always there.
use jackalopefs.Common.{
  ℕ, Bool, true, false, not, ◌&&◌, Option, none, some, List, [], ◌∷◌, ◌++◌, ◌==◌, if◌then◌else◌,
  ◌>>=◌, filter_if, lookup, alter,
}
use jackalopefs.Proto.Types.{Attr, FileKind, Identity}
use jackalopefs.Proto.Owners.Acl.{same_bytes}

abbrev pub Name : Type 0
Name = List ℕ

abbrev pub Alias : Type 0
Alias = ℕ × Name

abbrev pub root : ℕ
root = 1

pub record KeyNode : Type 0 where
  pub ino : ℕ
  pub identity : Identity

pub record Seen : Type 0 where
  pub ino : ℕ
  pub identity : Identity
  pub foreign : Bool
  pub kind : FileKind

pub record Node : Type 0 where
  pub aliases : List Alias
  pub lookup_count : ℕ
  pub key : Option KeyNode
  pub unlinked : Bool
  pub kind : FileKind
  pub children : Name → Option ℕ

pub record NodeTable : Type 0 where
  pub nodes : List (ℕ × Node)
  pub by_key : KeyNode → Option ℕ

unfoldable pub same_identity : Identity → Identity → Bool
unfolding same_bytes
same_identity a b = a.handle_type == b.handle_type && same_bytes a.handle b.handle

unfoldable pub same_key : KeyNode → KeyNode → Bool
unfolding same_identity
same_key a b = a.ino == b.ino && same_identity a.identity b.identity

unfoldable pub same_alias : Alias → Alias → Bool
unfolding same_bytes
same_alias (p, n) (q, m) = p == q && same_bytes n m

-- `Seen::from` of an attribute record.
unfoldable pub seen_of : Attr → Seen
seen_of a = record { ino = a.ino; identity = a.identity; foreign = a.foreign; kind = a.kind }

-- `Seen::key`.
unfoldable pub key_of : Seen → KeyNode
key_of s = record { ino = s.ino; identity = s.identity }

-- `KeyNode::describes`.
unfoldable pub describes : KeyNode → Attr → Bool
unfolding same_identity
describes k a = k.ino == a.ino && same_identity k.identity a.identity

-- A hash map changed at one name, or at one key.
unfoldable pub put_name : Name → ℕ → (Name → Option ℕ) → Name → Option ℕ
unfolding same_bytes
put_name n v f m = if same_bytes m n then some v else f m

unfoldable pub drop_name : Name → (Name → Option ℕ) → Name → Option ℕ
unfolding same_bytes
drop_name n f m = if same_bytes m n then none else f m

unfoldable pub put_key : KeyNode → ℕ → (KeyNode → Option ℕ) → KeyNode → Option ℕ
unfolding same_key
put_key k v f j = if same_key j k then some v else f j

unfoldable pub drop_key : KeyNode → (KeyNode → Option ℕ) → KeyNode → Option ℕ
unfolding same_key
drop_key k f j = if same_key j k then none else f j

unfoldable pub is_empty : List Alias → Bool
is_empty [] = true
is_empty (a ∷ as') = false

-- `retain` of the aliases that are not this one.
unfoldable pub without : Alias → List Alias → List Alias
unfolding same_alias
without a as' = filter_if (λ b. not (same_alias b a)) as'

-- What `drop_alias` does to the node.
unfoldable pub without_alias : Alias → Node → Node
unfolding without is_empty
without_alias a n =
    let rest = without a n.aliases in
    record n { aliases = rest; unlinked = if is_empty rest then true else n.unlinked }

-- `NodeTable::drop_alias`.
unfoldable pub drop_alias : ℕ → Alias → List (ℕ × Node) → List (ℕ × Node)
unfolding without_alias
drop_alias id a m = alter id (without_alias a) m

unfoldable pub moved_alias : Alias → Alias → Node → Node
unfolding without
moved_alias old new n = record n { aliases = without old n.aliases ++ new ∷ [] }

-- The child of a node under a name, if the node is there.
unfoldable pub child : List (ℕ × Node) → ℕ → Name → Option ℕ
child m p name = do n ← lookup p m; n.children name

unfoldable pub put_child : ℕ → Name → ℕ → List (ℕ × Node) → List (ℕ × Node)
unfolding put_name
put_child p name c m = alter p (λ n. record n { children = put_name name c n.children }) m

unfoldable pub drop_child : ℕ → Name → List (ℕ × Node) → List (ℕ × Node)
unfolding drop_name
drop_child p name m = alter p (λ n. record n { children = drop_name name n.children }) m
