-- ===== src/Nodes/Numbers.antt =====
-- crates/client/src/inodes.rs: the number that a file is shown under.
use jackalopefs.Common.{
  ℕ, zero, suc, ◌+◌, ◌*◌, ◌/◌, ◌%◌, ◌^◌, Bool, true, false, not, ◌&&◌, Option, none, some, List, [],
  ◌∷◌, ◌==◌, ltb, if◌then◌else◌, ◌>>=◌, length, lookup, is_key,
}
use Prim.Native.Nat.{bit_xor, max}
use jackalopefs.Proto.Types.{Identity}
use jackalopefs.Nodes.Table.{root, KeyNode, Seen, Node, NodeTable, same_identity, key_of}

-- The loop of `substitute`.
unfoldable pub fnv : ℕ → List ℕ → ℕ
fnv hash [] = hash
fnv hash (b ∷ bs) = fnv ((bit_xor hash b * 0x100000001b3) % 2 ^ 64) bs

-- `substitute`; `handle_type` has 32 bits.
unfoldable pub substitute : Identity → ℕ
unfolding fnv
substitute i =
    let t = i.handle_type in
    max
      (fnv 0xcbf29ce484222325
        (t % 256 ∷ (t / 256) % 256 ∷ (t / 65536) % 256 ∷ (t / 16777216) % 256 ∷ i.handle))
      2

-- The next number to try, in 64 bits.
unfoldable pub next_id : ℕ → ℕ
next_id id = max ((id + 1) % 2 ^ 64) 2

-- The loop of `id_for`, on fuel.
unfoldable pub free_from : ℕ → ℕ → List (ℕ × Node) → Option ℕ
unfolding next_id
free_from zero id m = none
free_from (suc fuel) id m = elim (is_key id m) [
  | true ↦ free_from fuel (next_id id) m
  | false ↦ some id
]

unfoldable pub is_root_key : Seen → Option KeyNode → Bool
unfolding same_identity
is_root_key s none = true
is_root_key s (some k) = same_identity k.identity s.identity

unfoldable pub root_key : NodeTable → Option KeyNode
root_key t = do n ← lookup root t.nodes; n.key

-- `NodeTable::id_for`; as much fuel as there are nodes, and one, is enough.
unfoldable pub id_for : NodeTable → Seen → Option ℕ
unfolding is_root_key root_key key_of substitute free_from
id_for t s =
    if s.ino == root && is_root_key s (root_key t) then some root else elim (t.by_key (key_of s)) [
      | some id ↦ some id
      | none ↦
          if not s.foreign && ltb root s.ino && not (is_key s.ino t.nodes)
          then some s.ino
          else free_from (suc (length t.nodes)) (substitute s.identity) t.nodes
    ]
