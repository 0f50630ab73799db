-- ===== src/Events/Window.antt =====
-- crates/server/src/watch.rs: `Pending` and `EventBatch`. A hash set is a list of what it holds.
use jackalopefs.Common.{
  ℕ, Bool, true, false, ◌&&◌, ◌||◌, Option, none, some, List, [], ◌∷◌, ◌++◌, ◌==◌, leb,
  if◌then◌else◌, length,
}
use jackalopefs.Proto.Message.{FilePath}
use jackalopefs.Proto.Owners.Acl.{same_bytes}
use jackalopefs.Nodes.Names.{same_names}

pub data EventItem : Type 0 where
  entry : (dir : FilePath) (name : List ℕ) → EventItem
  data_of : (path : FilePath) → EventItem
  overflow : EventItem
  unwatched : (dir : FilePath) → EventItem

unfoldable pub same_item : EventItem → EventItem → Bool
unfolding same_names same_bytes
same_item (EventItem.entry d n) (EventItem.entry e m) = same_names d e && same_bytes n m
same_item (EventItem.data_of p) (EventItem.data_of q) = same_names p q
same_item EventItem.overflow EventItem.overflow = true
same_item (EventItem.unwatched d) (EventItem.unwatched e) = same_names d e
same_item _ _ = false

unfoldable pub is_overflow : EventItem → Bool
is_overflow EventItem.overflow = true
is_overflow _ = false

-- Items with the sessions that caused them.
pub record EventBatch : Type 0 where
  pub items : List (EventItem × Option ℕ)

pub record Pending : Type 0 where
  pub items : List (EventItem × Option ℕ)
  pub seen : List EventItem
  pub overflow : Bool

abbrev pub max_pending : ℕ
max_pending = 10000

unfoldable pub is_seen : EventItem → List EventItem → Bool
unfolding same_item
is_seen item [] = false
is_seen item (j ∷ js) = same_item item j || is_seen item js

-- `Pending::default`.
unfoldable pub new_pending : Pending
new_pending = record { items = []; seen = []; overflow = false }

-- `Pending::fold`.
unfoldable pub fold : Pending → EventItem → Option ℕ → Pending
unfolding is_overflow is_seen
fold p item origin =
    if p.overflow
    then p
    else if is_overflow item || leb max_pending (length p.items)
    then record { items = []; seen = []; overflow = true }
    else if is_seen item p.seen
    then p
    else record p { seen = item ∷ p.seen; items = p.items ++ (item, origin) ∷ [] }

-- The items fold in the order that they come in.
unfoldable pub fold_all : Pending → List (EventItem × Option ℕ) → Pending
unfolding fold
fold_all p [] = p
fold_all p ((item, origin) ∷ more) = fold_all (fold p item origin) more

unfoldable pub is_empty : List (EventItem × Option ℕ) → Bool
is_empty [] = true
is_empty (e ∷ es) = false

-- `Pending::flush`.
unfoldable pub flush : Pending → Pending × Option EventBatch
unfolding is_empty new_pending
flush p =
    if p.overflow
    then (new_pending, some (record { items = (EventItem.overflow, none) ∷ [] }))
    else if is_empty p.items
    then (p, none)
    else (record p { items = []; seen = [] }, some (record { items = p.items }))

-- Whether an origin is this session.
unfoldable pub is_origin : ℕ → Option ℕ → Bool
is_origin s none = false
is_origin s (some o) = o == s

-- The items of `EventBatch::for_session`.
unfoldable pub items_for_session : ℕ → List (EventItem × Option ℕ) → List EventItem
unfolding is_origin
items_for_session s [] = []
items_for_session s ((item, o) ∷ es) =
    let rest = items_for_session s es in if is_origin s o then rest else item ∷ rest

unfoldable pub is_no_item : List EventItem → Bool
is_no_item [] = true
is_no_item (i ∷ is') = false

-- `EventBatch::for_session`.
unfoldable pub for_session : EventBatch → ℕ → Option (List EventItem)
unfolding items_for_session is_no_item
for_session batch s =
    if is_no_item (items_for_session s batch.items)
    then none
    else some (items_for_session s batch.items)
