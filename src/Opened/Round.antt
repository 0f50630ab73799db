-- ===== src/Opened/Round.antt =====
-- crates/client/src/machine.rs: `ReopenRound`, with what each method does, and what happens while a
-- round is under way. `none` is a panic.
use jackalopefs.Common.{
  ℕ, Bool, true, false, ◌&&◌, ◌||◌, Option, none, some, List, [], ◌∷◌, if◌then◌else◌, ◌>>=◌,
  get_elem?, lookup, insert, erase,
}
use jackalopefs.Proto.Message.{Request}
use jackalopefs.Call.Machine.{Outcome}
use jackalopefs.Releases.{release_request, owe_release}
use jackalopefs.Opened.Table.{
  HandleRec, HandleTable, is_dead, alloc, get, insert_handle, release_begins, live, kill_all,
  apply_reopen, reopen_request,
}

pub record ReopenRound : Type 0 where
  pub unsent : List (ℕ × ℕ)
  pub sending : List (ℕ × ℕ)
  pub reopened : List ℕ

-- `ReopenRound::new`.
unfoldable pub new_round : HandleTable → ReopenRound
new_round t = record { unsent = live t; sending = []; reopened = [] }

-- `ReopenRound::send`.
unfoldable pub send : HandleTable → ReopenRound → ℕ → Option (ReopenRound × Request)
send t round fh = do
  r ← lookup fh round.unsent
  rec ← get_elem? t.recs r
  some (
    record round { unsent = erase fh round.unsent; sending = insert fh r round.sending },
    reopen_request rec fh,
  )

-- The reopen that ends, and the round without it.
unfoldable pub take_reopen : ReopenRound → ℕ → Option (ReopenRound × ℕ)
take_reopen round fh = elim (lookup fh round.sending) [
  | some r ↦ some (record round { sending = erase fh round.sending }, r)
  | none ↦ (do
    r ← lookup fh round.unsent
    some (record round { unsent = erase fh round.unsent }, r))
]

-- `ReopenRound::ended`.
unfoldable pub ended : HandleTable → ReopenRound → ℕ → Outcome → Option (HandleTable × ReopenRound)
unfolding take_reopen
ended t round fh outcome = do
  (left, r) ← take_reopen round fh
  rec ← get_elem? t.recs r
  if is_dead (apply_reopen t r rec outcome).recs r
        || (elim (get t fh) [ none ↦ true | some found ↦ false ])
      then (do
        s ← owe_release t.owed (release_request rec.kind fh)
        some (record (apply_reopen t r rec outcome) { owed = s }, left))
      else some (apply_reopen t r rec outcome, record left { reopened = fh ∷ left.reopened })

unfoldable pub is_none : List (ℕ × ℕ) → Bool
is_none [] = true
is_none (e ∷ es) = false

-- `ReopenRound::publishable`.
unfoldable pub publishable : ReopenRound → Bool
unfolding is_none
publishable round = is_none round.unsent && is_none round.sending

-- The table and the latest round, with the handles kept since that round began.
pub record World : Type 0 where
  pub table : HandleTable
  pub round : ReopenRound
  pub opened : List ℕ

-- What may happen, in any order: a session begins, so that its round does; a reopen goes out or ends;
-- the kernel releases a handle; every handle is killed; an open takes an id, or is answered and keeps
-- its handle.
pub data Action : Type 0 where
  begins : Action
  sends : ℕ → Action
  ends : ℕ → Outcome → Action
  releases : ℕ → Action
  kills : Action
  takes_id : Action
  opens : ℕ → HandleRec → Action

-- A client's table as it starts.
unfoldable pub start : World
start = record {
  table = record {
    next = 0;
    recs = [];
    map = [];
    owed = record { owed = []; owed_count = 0 };
    files = 0;
    dirs = 0;
  };
  round = record { unsent = []; sending = []; reopened = [] };
  opened = [];
}

unfoldable pub step : World → Action → Option World
unfolding new_round
step w Action.begins = some (record w { round = new_round w.table; opened = [] })
step w (Action.sends fh) = do
  (round, _) ← send w.table w.round fh
  some (record w { round = round })
step w (Action.ends fh outcome) = do
  (t, round) ← ended w.table w.round fh outcome
  some (record w { table = t; round = round })
step w (Action.releases fh) = do (t, _) ← release_begins w.table fh; some (record w { table = t })
step w Action.kills = do t ← kill_all w.table; some (record w { table = t })
step w Action.takes_id = some (record w { table = (alloc w.table).0 })
step w (Action.opens fh rec) = do
  t ← insert_handle w.table fh rec
  some (record w { table = t; opened = fh ∷ w.opened })

unfoldable pub run : World → List Action → Option World
run w [] = some w
run w (a ∷ acts) = do w' ← step w a; run w' acts
