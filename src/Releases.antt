-- ===== src/Releases.antt =====
-- crates/client/src/handles.rs: the releases that a client owes its server, until the server answers one.
-- `Owed` holds `owed` and `owed_count` of the code's `HandleTable`; `none` is a panic.
pub mod Kept
use jackalopefs.Common.{
  ℕ, suc, Bool, true, false, ◌&&◌, Option, none, some, List, [], ◌∷◌, map, ◌==◌, if◌then◌else◌,
  ◌>>=◌, lookup, insert, erase,
}
use jackalopefs.Proto.Message.{Request}
use jackalopefs.Call.Machine.{AttachedState}

pub data HandleKind : Type 0 where
  file dir : HandleKind

-- `sending_on` is the generation of the connection that it is being sent on.
pub record OwedRelease : Type 0 where
  pub req : Request
  pub sending_on : Option ℕ

pub record Owed : Type 0 where
  pub owed : List (ℕ × OwedRelease)
  pub owed_count : ℕ

-- `release_request`.
unfoldable pub release_request : HandleKind → ℕ → Request
release_request HandleKind.file fh = Request.release fh true
release_request HandleKind.dir fh = Request.releasedir fh true

-- The release as an ordered one, and the handle that it names.
unfoldable pub ordered_release : Request → Option (ℕ × Request)
ordered_release (Request.release fh ordered) = some (fh, Request.release fh true)
ordered_release (Request.releasedir fh ordered) = some (fh, Request.releasedir fh true)
ordered_release _ = none

-- `HandleTable::owe_release`.
unfoldable pub owe_release : Owed → Request → Option Owed
unfolding ordered_release
owe_release s asked = do
  (fh, req) ← ordered_release asked
  elim (lookup fh s.owed) [
    | some o ↦ some s
    | none ↦ some (record s {
      owed = insert fh (record { req = req; sending_on = none }) s.owed;
      owed_count = suc s.owed_count;
    })
  ]

unfoldable pub is_unsent : OwedRelease → Bool
is_unsent o = elim o.sending_on [ none ↦ true | some generation ↦ false ]

unfoldable pub unsent_keys : List (ℕ × OwedRelease) → List ℕ
unfolding is_unsent
unsent_keys [] = []
unsent_keys ((fh, o) ∷ m) = if is_unsent o then fh ∷ unsent_keys m else unsent_keys m

-- `HandleTable::owed_unsent`.
unfoldable pub owed_unsent : Owed → List ℕ
unfolding unsent_keys
owed_unsent s = unsent_keys s.owed

-- `HandleTable::owed_send`.
unfoldable pub owed_send : Owed → ℕ → ℕ → Option (Owed × Request)
owed_send s fh generation = do
  o ← lookup fh s.owed
  some (record s { owed = insert fh (record o { sending_on = some generation }) s.owed }, o.req)

unfoldable pub is_sending : ℕ → OwedRelease → Bool
is_sending generation o = elim o.sending_on [ none ↦ false | some g ↦ g == generation ]

-- `HandleTable::owed_delivered`.
unfoldable pub owed_delivered : Owed → ℕ → ℕ → Owed
unfolding is_sending
owed_delivered s fh generation = elim (lookup fh s.owed) [
  | none ↦ s
  | some o ↦ if is_sending generation o then record s { owed = erase fh s.owed } else s
]

unfoldable pub stop_sending : ℕ → List (ℕ × OwedRelease) → List (ℕ × OwedRelease)
unfolding is_sending
stop_sending generation [] = []
stop_sending generation ((fh, o) ∷ m) =
    (fh, if is_sending generation o then record o { sending_on = none } else o)
    ∷ stop_sending generation m

-- `HandleTable::owed_connection_ended`.
unfoldable pub owed_connection_ended : Owed → ℕ → Owed
unfolding stop_sending
owed_connection_ended s generation = record s { owed = stop_sending generation s.owed }

-- `HandleTable::owed_moot`.
unfoldable pub owed_moot : Owed → Owed
owed_moot s = record s { owed = [] }

-- `owed_sendable`.
unfoldable pub owed_sendable : Owed → AttachedState → ℕ → List ℕ
unfolding owed_unsent
owed_sendable s a pending = if a.published && pending == 0 then owed_unsent s else []

pub data Action : Type 0 where
  owes : Request → Action
  sends delivers : ℕ → ℕ → Action
  connection_ends : ℕ → Action
  moots : Action

unfoldable pub step : Owed → Action → Option Owed
step s (Action.owes asked) = owe_release s asked
step s (Action.sends fh generation) = do (s', _) ← owed_send s fh generation; some s'
step s (Action.delivers fh generation) = some (owed_delivered s fh generation)
step s (Action.connection_ends generation) = some (owed_connection_ended s generation)
step s Action.moots = some (owed_moot s)

-- A history of steps.
unfoldable pub run : Owed → List Action → Option Owed
run s [] = some s
run s (a ∷ acts) = do s' ← step s a; run s' acts
