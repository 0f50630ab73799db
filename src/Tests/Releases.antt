-- ===== src/Tests/Releases.antt =====
-- crates/client/src/handles.rs: the release of one handle, owed, lost with its connection and delivered.
use jackalopefs.Common.{ℕ, ◌≡◌, refl, true, none, some, List, [], ◌∷◌, ◌++◌, Option, lookup, arith}
use jackalopefs.Call.Machine.{AttachedState}
use jackalopefs.Releases.{
  HandleKind, OwedRelease, Owed, Action, release_request, ordered_release, owe_release, is_unsent,
  unsent_keys, owed_unsent, owed_send, is_sending, owed_delivered, stop_sending,
  owed_connection_ended, owed_moot, owed_sendable, step, run,
}
use jackalopefs.Releases.Kept.{Settles, run-settled, owed_sendable_lem}

program : Unit {0}
unfolding release_request ordered_release owe_release is_unsent unsent_keys owed_unsent owed_send
    is_sending owed_delivered stop_sending owed_connection_ended owed_moot owed_sendable step run
program = tt

abbrev or_else : Option Owed → Owed → Owed
or_else none s = s
or_else (some t) s = t

abbrev nothing : Owed
nothing = record { owed = []; owed_count = 0 }

abbrev owed_one : Owed
unfolding program
owed_one = or_else (step nothing (Action.owes (release_request HandleKind.file 5))) nothing

-- It is lost with its first connection, and an answer on that one says nothing any more.
abbrev tries : List Action
tries = Action.sends 5 1 ∷ Action.connection_ends 1 ∷ Action.delivers 5 1 ∷ []

abbrev delivered : List Action
delivered = tries ++ Action.sends 5 2 ∷ Action.delivers 5 2 ∷ []

abbrev after_tries : Owed
unfolding program
after_tries = or_else (run owed_one tries) nothing

abbrev after_delivery : Owed
unfolding program
after_delivery = or_else (run owed_one delivered) nothing

after_tries_unsent : owed_unsent after_tries ≡ 5 ∷ []
unfolding program
after_tries_unsent = refl

abbrev no_cancels : ℕ
no_cancels = 0

abbrev published : AttachedState
published = record { generation = 2; cancels = 0; published = true }

run-settled_example :
    (before after : List Action) × (a : Action) × (t : Owed) × (o : OwedRelease) × (delivered
      ≡ before ++ a ∷ after)
    × (run owed_one before ≡ some t)
    × (lookup 5 t.owed ≡ some o)
    × Settles 5 o a
unfolding program
run-settled_example = run-settled owed_one after_delivery delivered 5 refl (λ e. ground arith) refl

owed_sendable_lem_example :
    (published.published ≡ true)
    × (no_cancels ≡ 0)
    × ((o : OwedRelease) × (lookup 5 after_tries.owed ≡ some o) × (o.sending_on ≡ none))
unfolding program
owed_sendable_lem_example =
    owed_sendable_lem owed_one after_tries tries published no_cancels 0 5 tt refl refl
