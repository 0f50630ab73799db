-- ===== src/Opened/Table.antt =====
-- crates/client/src/handles.rs: `HandleTable`, with what each method does. A record of a handle is
-- shared by the table and a round of reopens, so records stand in a store, and both hold their places
-- in it. `none` is a panic, or a counter taken below zero.
use jackalopefs.Common.{
  ℕ, suc, ◌-◌, ◌^◌, Bool, true, false, not, ◌&&◌, ◌||◌, Option, none, some, List, [], ◌∷◌, ◌++◌,
  ◌==◌, if◌then◌else◌, ◌>>=◌, checked_pred, length, get_elem?, set, lookup, insert, erase,
}
use Prim.Native.Nat.{bit_and, bit_or}
use jackalopefs.Proto.Message.{FilePath, Request, Response}
use jackalopefs.Call.Machine.{Outcome, ok, err, o_excl, o_trunc}
use jackalopefs.Nodes.Table.{KeyNode, describes}
use jackalopefs.Releases.{HandleKind, Owed, release_request, owe_release}

-- A process is its id and its name.
pub record Opener : Type 0 where
  pub pid : ℕ
  pub name : List ℕ

pub record HandleRec : Type 0 where
  pub nodeid : ℕ
  pub key : KeyNode
  pub path : FilePath
  pub flags : ℕ
  pub kind : HandleKind
  pub opener : Option Opener
  pub dead : Bool

pub record HandleTable : Type 0 where
  pub next : ℕ
  pub recs : List HandleRec
  pub map : List (ℕ × ℕ)
  pub owed : Owed
  pub files : ℕ
  pub dirs : ℕ

-- Flags of `open(2)` on Linux.
abbrev o_creat : ℕ
o_creat = 0o100

abbrev o_append : ℕ
o_append = 0o2000

abbrev o_accmode : ℕ
o_accmode = 0o3

-- `HandleRec::appends`.
unfoldable pub appends : HandleRec → Bool
appends rec = not (bit_and rec.flags o_append == 0)

-- `HandleRec::reopen_request`; flags have 32 bits.
unfoldable pub reopen_request : HandleRec → ℕ → Request
reopen_request rec fh = elim rec.kind [
  | HandleKind.file ↦
      Request.open_file fh rec.path
        (bit_and rec.flags (2 ^ 32 - 1 - bit_or o_creat (bit_or o_excl o_trunc)))
  | HandleKind.dir ↦ Request.opendir fh rec.path
]

-- `HandleRec::is_dead`, of the record in a place.
unfoldable pub is_dead : List HandleRec → ℕ → Bool
is_dead recs r = elim (get_elem? recs r) [ none ↦ false | some rec ↦ rec.dead ]

-- `HandleRec::mark_dead`.
unfoldable pub mark_dead : ℕ → List HandleRec → List HandleRec
mark_dead r recs = elim (get_elem? recs r) [
  | none ↦ recs
  | some rec ↦ set recs r (record rec { dead = true })
]

-- `HandleTable::alloc`.
unfoldable pub alloc : HandleTable → HandleTable × ℕ
alloc t = (record t { next = suc t.next }, suc t.next)

-- `fetch_add` and `fetch_sub` of `HandleTable::count`.
unfoldable pub count_up : HandleKind → HandleTable → HandleTable
count_up HandleKind.file t = record t { files = suc t.files }
count_up HandleKind.dir t = record t { dirs = suc t.dirs }

unfoldable pub count_down : HandleKind → HandleTable → Option HandleTable
count_down HandleKind.file t = do n ← checked_pred t.files; some (record t { files = n })
count_down HandleKind.dir t = do n ← checked_pred t.dirs; some (record t { dirs = n })

-- `HandleTable::get`, with the record's place.
unfoldable pub get : HandleTable → ℕ → Option (ℕ × HandleRec)
get t fh = do r ← lookup fh t.map; rec ← get_elem? t.recs r; some (r, rec)

-- `HandleTable::insert` of a new record.
unfoldable pub insert_handle : HandleTable → ℕ → HandleRec → Option HandleTable
unfolding count_up count_down get
insert_handle t fh rec =
    let t' = record (count_up rec.kind t) {
      recs = t.recs ++ rec ∷ [];
      map = insert fh (length t.recs) t.map;
    } in
    elim (get t fh) [ none ↦ some t' | some (r, old) ↦ count_down old.kind t' ]

-- `HandleTable::remove`.
unfoldable pub remove_handle : HandleTable → ℕ → Option (HandleTable × Option HandleRec)
unfolding get count_down
remove_handle t fh = elim (get t fh) [
  | none ↦ some (t, none)
  | some (r, rec) ↦ (do
    t' ← count_down rec.kind (record t { map = erase fh t.map })
    some (t', some rec))
]

unfoldable pub is_dead_rec : Option HandleRec → Bool
is_dead_rec none = false
is_dead_rec (some rec) = rec.dead

-- `release_begins`.
unfoldable pub release_begins : HandleTable → ℕ → Option (HandleTable × Bool)
unfolding remove_handle is_dead_rec
release_begins t fh = do (t', rec) ← remove_handle t fh; some (t', not (is_dead_rec rec))

-- `HandleTable::live`, by the ids and the records' places.
unfoldable pub live_in : List HandleRec → List (ℕ × ℕ) → List (ℕ × ℕ)
unfolding is_dead
live_in recs [] = []
live_in recs ((fh, r) ∷ m) = if is_dead recs r then live_in recs m else (fh, r) ∷ live_in recs m

unfoldable pub live : HandleTable → List (ℕ × ℕ)
unfolding live_in
live t = live_in t.recs t.map

-- The loops of `kill_all`.
unfoldable pub kill_recs : List (ℕ × ℕ) → List HandleRec → List HandleRec
unfolding mark_dead
kill_recs [] recs = recs
kill_recs ((fh, r) ∷ m) recs = kill_recs m (mark_dead r recs)

unfoldable pub owe_killed : List (ℕ × ℕ) → List HandleRec → Owed → Option Owed
owe_killed [] recs s = some s
owe_killed ((fh, r) ∷ m) recs s = do
  rec ← get_elem? recs r
  s' ← owe_release s (release_request rec.kind fh)
  owe_killed m recs s'

-- `HandleTable::kill_all`.
unfoldable pub kill_all : HandleTable → Option HandleTable
unfolding live kill_recs owe_killed
kill_all t = do
  s ← owe_killed (live t) t.recs t.owed
  some (record t { recs = kill_recs (live t) t.recs; owed = s })

-- Whether a reopen's outcome keeps the handle alive.
unfoldable pub keeps_alive : HandleRec → Outcome → Bool
unfolding describes
keeps_alive rec (ok (Response.opened attr)) = describes rec.key attr
keeps_alive rec (ok _) = false
keeps_alive rec (err e) = false

-- `HandleTable::apply_reopen`, of the record in a place.
unfoldable pub apply_reopen : HandleTable → ℕ → HandleRec → Outcome → HandleTable
unfolding keeps_alive mark_dead
apply_reopen t r rec outcome =
    if keeps_alive rec outcome then t else record t { recs = mark_dead r t.recs }

-- `HandleTable::has_writer`, and `may_be_dirty`, which counts dead handles too.
unfoldable pub any_writer : Bool → ℕ → List HandleRec → List (ℕ × ℕ) → Bool
any_writer dead_too nodeid recs [] = false
any_writer dead_too nodeid recs ((fh, r) ∷ m) =
    (elim (get_elem? recs r) [
      | none ↦ false
      | some rec ↦
          rec.nodeid == nodeid
          && (dead_too || not rec.dead)
          && not (bit_and rec.flags o_accmode == 0)
    ])
    || any_writer dead_too nodeid recs m

unfoldable pub has_writer : HandleTable → ℕ → Bool
unfolding any_writer
has_writer t nodeid = any_writer false nodeid t.recs t.map

unfoldable pub may_be_dirty : HandleTable → ℕ → Bool
unfolding any_writer
may_be_dirty t nodeid = any_writer true nodeid t.recs t.map
