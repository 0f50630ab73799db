-- ===== src/Watch/Ops.antt =====
-- crates/server/src/watch.rs: how the table makes room, checks what it has, and records a watch.
use jackalopefs.Common.{
  ℕ, zero, suc, ◌+◌, ◌-◌, ◌/◌, Bool, true, false, not, ◌&&◌, ◌||◌, none, some, List, [], ◌∷◌, ◌++◌,
  ◌==◌, ltb, leb, if◌then◌else◌, length, get_elem?, lookup, insert, is_key,
}
use Prim.Native.Nat.{max, min}
use jackalopefs.Proto.Owners.Acl.{same_bytes}
use jackalopefs.Proto.Message.{FilePath}
use jackalopefs.Nodes.Names.{same_names}
use jackalopefs.Watch.Tree.{State, Children, no_more, child, Node, is_watched, node_at}
use jackalopefs.Watch.Table.{Answer, Stamp, Table, rm, put, reroot, drop_at}

abbrev pub unwatchable_retry : ℕ
unwatchable_retry = 60000000000

abbrev pub limited_hold : ℕ
limited_hold = 600000000000

abbrev pub evict_batch : ℕ
evict_batch = 512

abbrev pub enospc : ℕ
enospc = 28

-- `Table::budget_at`.
unfoldable pub budget_at : ℕ → Table → Table × ℕ
budget_at now t = elim t.capped [
  | none ↦ (t, t.budget)
  | some (cap, until) ↦ if ltb now until then (t, cap) else (record t { capped = none }, t.budget)
]

-- A mark that is new, at the end of the store.
unfoldable pub new_node : State → ℕ → Table → Table × Node
new_node s round t = (
  record t { stamps = t.stamps ++ record { used = round; holds = 0 } ∷ [] },
  record { mark = length t.stamps; state = s; children = no_more },
)

unfoldable pub holds_of : List Stamp → ℕ → ℕ
holds_of stamps m = elim (get_elem? stamps m) [ none ↦ 0 | some s ↦ s.holds ]

unfoldable pub used_of : List Stamp → ℕ → ℕ
used_of stamps m = elim (get_elem? stamps m) [ none ↦ 0 | some s ↦ s.used ]

unfoldable pub any_watched : Children → Bool
unfolding is_watched
any_watched no_more = false
any_watched (child x m s below others) = is_watched s || any_watched others

-- `starts_with` of the path being watched.
unfoldable pub starts_with : FilePath → FilePath → Bool
unfolding same_bytes
starts_with keep [] = true
starts_with [] (x ∷ names) = false
starts_with (k ∷ keep) (x ∷ names) = same_bytes k x && starts_with keep names

-- `leaves_of`.
unfoldable pub leaves_of : List Stamp → FilePath → FilePath → Children → List (ℕ × FilePath)
unfolding is_watched any_watched holds_of used_of starts_with
leaves_of stamps keep names no_more = []
leaves_of stamps keep names (child x m s below others) =
    let here = names ++ x ∷ [] in
    let under = leaves_of stamps keep here below in
    let rest = leaves_of stamps keep names others in
    if not (is_watched s)
    then rest
    else if any_watched below
    then under ++ rest
    else if holds_of stamps m == 0 && not (starts_with keep here)
    then (used_of stamps m, here) ∷ rest
    else rest

unfoldable pub bytes_le : List ℕ → List ℕ → Bool
bytes_le [] b = true
bytes_le (x ∷ a) [] = false
bytes_le (x ∷ a) (y ∷ b) = ltb x y || (x == y && bytes_le a b)

unfoldable pub names_le : FilePath → FilePath → Bool
unfolding bytes_le same_bytes
names_le [] b = true
names_le (x ∷ a) [] = false
names_le (x ∷ a) (y ∷ b) = if same_bytes x y then names_le a b else bytes_le x y

-- The order of the leaves: the one used longest ago first, then the deeper one.
unfoldable pub leaf_le : ℕ × FilePath → ℕ × FilePath → Bool
unfolding names_le
leaf_le (u, a) (v, b) =
    ltb u v || (u == v && (ltb (length b) (length a) || (length a == length b && names_le a b)))

unfoldable pub insert_leaf : ℕ × FilePath → List (ℕ × FilePath) → List (ℕ × FilePath)
unfolding leaf_le
insert_leaf l [] = l ∷ []
insert_leaf l (k ∷ ls) = let rest = insert_leaf l ls in if leaf_le l k then l ∷ k ∷ ls else k ∷ rest

unfoldable pub sort_leaves : List (ℕ × FilePath) → List (ℕ × FilePath)
unfolding insert_leaf
sort_leaves [] = []
sort_leaves (l ∷ ls) = insert_leaf l (sort_leaves ls)

unfoldable pub drop_leaves : ℕ → List (ℕ × FilePath) → Table → Table
unfolding drop_at
drop_leaves zero ls t = t
drop_leaves (suc n) [] t = t
drop_leaves (suc n) ((u, names) ∷ ls) t = drop_leaves n ls (drop_at true names t)

-- The loop of `Table::evict`, for as many as are still wanted; each turn drops at least one, so that as
-- much fuel is enough.
unfoldable pub evict_more : ℕ → ℕ → FilePath → Table → Table
unfolding sort_leaves leaves_of drop_leaves
evict_more zero left keep t = t
evict_more (suc fuel) left keep t =
    let leaves = sort_leaves (leaves_of t.stamps keep [] t.root.children) in
    elim (min left (length leaves)) [
      | zero ↦ t
      | suc n ↦ evict_more fuel (left - suc n) keep (drop_leaves (suc n) leaves t)
    ]

-- `Table::evict`.
unfoldable pub evict : FilePath → ℕ → Table → Table
unfolding budget_at evict_more
evict keep now t =
    let (u, budget) = budget_at now t in
    let want = max (u.watched + 1 - budget) (max 1 (min evict_batch (budget / 16))) in
    evict_more want want keep (record u { round = suc u.round })

-- `Table::limited`.
unfoldable pub limited : ℕ → Table → Table
limited now t = record t { capped = some (t.watched, now + limited_hold) }

-- A new watch is recorded.
unfoldable pub put_new : FilePath → ℕ → Table → Table
unfolding new_node put
put_new path wd t =
    let (u, n) =
      new_node (State.watched wd) t.round
        (record t { by_wd = insert wd path t.by_wd; watched = suc t.watched }) in
    put path n u

-- `Table::place`.
unfoldable pub place : FilePath → ℕ → ℕ → Table → Table × Bool
unfolding same_names reroot budget_at evict put_new
place path wd now t = elim (lookup wd t.by_wd) [
  | some old ↦ if same_names old path then (t, true) else reroot old path t
  | none ↦
      let (u, budget) = budget_at now t in
      (put_new path wd (if leb budget u.watched then evict path now u else u), true)
]

-- `Marks::add` of a directory.
unfoldable pub add : Table → ℕ → Table × Answer
add t dir = (record t { calls = suc t.calls }, t.marks.add t.calls dir)

unfoldable pub open_dir : Table → FilePath → Table × Answer
open_dir t path = (record t { calls = suc t.calls }, t.marks.open_dir t.calls path)

unfoldable pub open_child : Table → ℕ → List ℕ → Table × Answer
open_child t dir name = (record t { calls = suc t.calls }, t.marks.open_child t.calls dir name)

unfoldable pub put_unwatchable : FilePath → ℕ → Table → Table
unfolding new_node put
put_unwatchable path now t =
    let (u, n) = new_node (State.unwatchable (now + unwatchable_retry)) t.round t in put path n u

-- The end of `Table::install`, with the last answer.
unfoldable pub settle_install : FilePath → ℕ → Table × Answer → Table × Bool
unfolding place put_unwatchable
settle_install path now (t, Answer.ok wd) = place path wd now t
settle_install path now (t, Answer.err e) = (put_unwatchable path now t, false)

-- Whether the system has no watch left to give, and a directory can be dropped.
unfoldable pub is_full : Table → Answer → Bool
is_full t (Answer.ok wd) = false
is_full t (Answer.err e) = e == enospc && ltb 0 t.watched

-- `Table::install`.
unfoldable pub install : FilePath → ℕ → ℕ → Table → Table × Bool
unfolding add is_full limited evict settle_install
install path dir now t =
    let (u, added) = add t dir in
    if is_full u added
    then settle_install path now (add (evict path now (limited now u)) dir)
    else settle_install path now (u, added)

-- `Table::verify`.
unfoldable pub verify : FilePath → ℕ → ℕ → Table → Table × Bool
unfolding node_at add drop_at place
verify path dir now t = elim (node_at t.root path) [
  | none ↦ (t, false)
  | some n ↦ elim n.state [
    | State.unwatchable at ↦ (t, false)
    | State.watched wd ↦
        let (u, added) = add t dir in
        elim added [
          | Answer.err e ↦ (u, false)
          | Answer.ok found ↦
              if found == wd then (u, true) else place path found now (drop_at true path u)
        ]
  ]
]

-- `Table::is`.
unfoldable pub is_it : ℕ → ℕ → Table → Table × Bool
unfolding add rm
is_it dir wd t =
    let (u, added) = add t dir in
    elim added [
      | Answer.err e ↦ (u, false)
      | Answer.ok found ↦
          if found == wd then (u, true) else (if is_key found u.by_wd then u else rm u, false)
    ]

-- `Table::still_there`.
unfoldable pub still_there : FilePath → Table → Table × Bool
unfolding node_at open_dir is_it
still_there path t = elim (node_at t.root path) [
  | none ↦ (t, false)
  | some n ↦ elim n.state [
    | State.unwatchable at ↦ (t, false)
    | State.watched wd ↦
        let (u, opened) = open_dir t path in
        elim opened [ Answer.err e ↦ (u, false) | Answer.ok dir ↦ is_it dir wd u ]
  ]
]
