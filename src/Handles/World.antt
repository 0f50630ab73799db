-- ===== src/Handles/World.antt =====
-- crates/server/src/handles.rs: every session's table, the slots that opens hold meanwhile, and the
-- pool that they draw on, one step of one of them after another.
use jackalopefs.Common.{
  ℕ, map, ◌+◌, ◌≡◌, ◌≤◌, not, Option, none, some, List, [], ◌∷◌, ◌==◌, if◌then◌else◌, ◌>>=◌,
  get_elem?, set, length, count_if, sum_by, remove_at, All, IsMap,
}
use jackalopefs.Handles.Table.{
  Handle, HandlePool, Handles, Reserved, slot, kept, refused, is_dir, new, reserve, insert_slot,
  drop_slot, remove, drop_table,
}

-- A slot is of the table in a place and an id.
pub record World : Type 0 where
  pub pool : HandlePool
  pub tables : List Handles
  pub slots : List (ℕ × ℕ)

-- The pool and the tables of sessions that have opened nothing, of these shares.
unfoldable pub start : ℕ → List ℕ → World
start capacity shares = record {
  pool = record { capacity = capacity; used = 0 };
  tables = map new shares;
  slots = [];
}

pub data Action : Type 0 where
  reserves removes : ℕ → ℕ → Action
  inserts : ℕ → Handle → Action
  drops closes : ℕ → Action

unfoldable pub after_reserve : World → ℕ → ℕ → HandlePool × Reserved → World
after_reserve w i fh (p, slot) = record w { pool = p; slots = (i, fh) ∷ w.slots }
after_reserve w i fh (p, kept handle) = record w { pool = p }
after_reserve w i fh (p, refused e) = record w { pool = p }

-- One step; `none` if a counter is taken below zero, or what it is about is not there. A table is
-- dropped once no slot refers to it, and a new session's, with the same share, takes its place.
unfoldable pub step : World → Action → Option World
unfolding after_reserve
step w (Action.reserves i fh) = do
  h ← get_elem? w.tables i
  some (after_reserve w i fh (reserve w.pool h fh))
step w (Action.removes i fh) = do
  h ← get_elem? w.tables i
  (p, h', _) ← remove w.pool h fh
  some (record w { pool = p; tables = set w.tables i h' })
step w (Action.inserts k handle) = do
  (i, fh) ← get_elem? w.slots k
  h ← get_elem? w.tables i
  (p, h', _) ← insert_slot w.pool h fh handle
  some (record { pool = p; tables = set w.tables i h'; slots = remove_at w.slots k })
step w (Action.drops k) = do
  _ ← get_elem? w.slots k
  p ← drop_slot w.pool
  some (record w { pool = p; slots = remove_at w.slots k })
step w (Action.closes i) = do
  h ← get_elem? w.tables i
  p ← drop_table w.pool h
  if count_if (λ s. s.0 == i) w.slots == 0
      then some (record w { pool = p; tables = set w.tables i (new h.share) })
      else none

-- A history of steps.
unfoldable pub run : World → List Action → Option World
run w [] = some w
run w (a ∷ acts) = do w' ← step w a; run w' acts

-- The counts of a table are of its handles, by kind, and each handle has an id of its own.
pub record IsTable (h : Handles) : Type 0 where
  pub ids : IsMap h.table
  pub files : h.files ≡ count_if (λ e. not (is_dir e.1)) h.table
  pub dirs : h.dirs ≡ count_if (λ e. is_dir e.1) h.table

abbrev pub held : Handles → ℕ
held h = length h.table

-- Every slot of the pool that is taken is a handle's in some table or an open's.
pub record IsPooled (w : World) : Type 0 where
  pub tables : All IsTable w.tables
  pub used : w.pool.used ≡ sum_by held w.tables + length w.slots
  pub within : w.pool.used ≤ w.pool.capacity
