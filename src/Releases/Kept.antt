-- ===== src/Releases/Kept.antt =====
-- crates/client/src/handles.rs: when a release stops being owed, and when it may be sent.
use jackalopefs.Common.{
  ℕ, zero, suc, ◌≡◌, ◌≢◌, ◌⊎◌, inl, inr, refl, subst, Bool-cases, true, ◌&&◌, none, some,
  some-injective, List, [], ◌∷◌, ◌++◌, arith, ◌==◌, >>=-eq-some, Option-cases, get_elem?, lookup,
  lookup-insert, lookup-erase_ne, Above, IsMap, Above-IsMap, insert-IsMap, erase-IsMap,
  lookup_below,
}
use jackalopefs.Proto.Message.{Request}
use jackalopefs.Call.Machine.{AttachedState}
use jackalopefs.Releases.{
  OwedRelease, Owed, Action, ordered_release, owe_release, is_unsent, unsent_keys, owed_unsent,
  owed_send, is_sending, owed_delivered, stop_sending, owed_connection_ended, owed_moot,
  owed_sendable, step, run,
}

-- An action that ends the owing of the release of `fh`.
abbrev pub Settles : ℕ → OwedRelease → Action → Type 0
Settles fh o a =
    (a ≡ Action.moots)
    ⊎ ((generation : ℕ) × (a ≡ Action.delivers fh generation) × (o.sending_on ≡ some generation))

lookup-stop_sending :
    (generation fh : ℕ) (m : List (ℕ × OwedRelease))
    → lookup fh m ≢ none
    → lookup fh (stop_sending generation m) ≢ none
unfolding stop_sending
lookup-stop_sending generation fh [] h bad = h refl
lookup-stop_sending generation fh ((i, o) ∷ m) h bad = elim (Bool-cases (fh == i)) [
  | inl e ↦ ground arith
  | inr e ↦ ground (arith, lookup-stop_sending generation fh m)
]

-- What a step takes away, it settles.
owed_delivered_settles :
    (s : Owed) (fh other generation : ℕ) (o : OwedRelease)
    → lookup fh s.owed ≡ some o
    → lookup fh (owed_delivered s other generation).owed ≡ none
    → (fh ≡ other) × (o.sending_on ≡ some generation)
unfolding owed_delivered is_sending
owed_delivered_settles s fh other generation o at gone = elim (Bool-cases (fh == other)) [
  | inl e ↦ ground arith
  | inr e ↦ ground (arith, lookup-erase_ne other fh s.owed)
]

owe_release_keeps :
    (s u : Owed) (asked : Request) (fh : ℕ) (o : OwedRelease)
    → owe_release s asked ≡ some u
    → lookup fh s.owed ≡ some o
    → lookup fh u.owed ≢ none
unfolding owe_release
owe_release_keeps s u asked fh o e at gone =
    let ((other, req), named, rest) = >>=-eq-some (ordered_release asked) _ e in
    elim (Option-cases (lookup other s.owed)) [
      | inl absent ↦
          ground (arith, lookup-insert other fh (record { req = req; sending_on = none }) s.owed)
      | inr (p, there) ↦ ground arith
    ]

owed_send_keeps :
    (s u : Owed) (other generation fh : ℕ) (o : OwedRelease)
    → step s (Action.sends other generation) ≡ some u
    → lookup fh s.owed ≡ some o
    → lookup fh u.owed ≢ none
unfolding step owed_send
owed_send_keeps s u other generation fh o e at gone = elim (Option-cases (lookup other s.owed)) [
  | inl absent ↦ ground arith
  | inr (p, there) ↦
      ground (arith, lookup-insert other fh (record p { sending_on = some generation }) s.owed)
]

step-Settles :
    (s u : Owed) (a : Action) (fh : ℕ) (o : OwedRelease)
    → step s a ≡ some u
    → lookup fh s.owed ≡ some o
    → lookup fh u.owed ≡ none
    → Settles fh o a
unfolding step owe_release owed_send owed_connection_ended
step-Settles s u (Action.owes asked) fh o e at gone =
    absurd (owe_release_keeps s u asked fh o e at gone)
step-Settles s u (Action.sends other generation) fh o e at gone =
    absurd (owed_send_keeps s u other generation fh o e at gone)
step-Settles s u (Action.delivers other generation) fh o e at gone =
    let (same, on) = owed_delivered_settles s fh other generation o at (ground arith) in
    inr (generation, ground arith, on)
step-Settles s u (Action.connection_ends generation) fh o e at gone =
    absurd (ground (arith, lookup-stop_sending generation fh s.owed))
step-Settles s u Action.moots fh o e at gone = inl refl

-- A release that is owed stops being owed only by a step, somewhere in the history, that makes all
-- releases moot, or that delivers it on the very connection that it was then being sent on.
pub run-settled :
    (s u : Owed) (acts : List Action) (fh : ℕ)
    → run s acts ≡ some u
    → lookup fh s.owed ≢ none
    → lookup fh u.owed ≡ none
    → (before after : List Action) × (a : Action) × (t : Owed) × (o : OwedRelease) × (acts
        ≡ before ++ a ∷ after)
      × (run s before ≡ some t)
      × (lookup fh t.owed ≡ some o)
      × Settles fh o a
unfolding run
run-settled s u [] fh e owes gone = absurd (owes (ground arith))
run-settled s u (a ∷ acts) fh e owes gone =
    let (m, did, rest) = >>=-eq-some (step s a) _ e in
    elim (Option-cases (lookup fh s.owed)) [
      | inl none_owed ↦ absurd (owes none_owed)
      | inr (o, at) ↦ elim (Option-cases (lookup fh m.owed)) [
        | inl lost_now ↦
            ([], acts, a, s, o, refl, refl, at, step-Settles s m a fh o did at lost_now)
        | inr (p, still) ↦
            let (before, after, b, t, q, split, ran, there, settles) =
              run-settled m u acts fh rest (λ z. ground arith) gone in
            (a ∷ before, after, b, t, q, ground arith, rw did ran, there, settles)
      ]
    ]

stop_sending-Above :
    (generation lo : ℕ) (m : List (ℕ × OwedRelease))
    → Above lo m
    → Above lo (stop_sending generation m)
unfolding stop_sending
stop_sending-Above generation lo [] a = tt
stop_sending-Above generation lo ((i, o) ∷ m) a = (a.0, stop_sending-Above generation i m a.1)

stop_sending-IsMap :
    (generation : ℕ) (m : List (ℕ × OwedRelease)) → IsMap m → IsMap (stop_sending generation m)
unfolding stop_sending
stop_sending-IsMap generation [] a = tt
stop_sending-IsMap generation ((i, o) ∷ m) a = stop_sending-Above generation i m a

owe_release-IsMap :
    (s u : Owed) (asked : Request) → owe_release s asked ≡ some u → IsMap s.owed → IsMap u.owed
unfolding owe_release
owe_release-IsMap s u asked e k =
    let ((other, req), named, rest) = >>=-eq-some (ordered_release asked) _ e in
    elim (Option-cases (lookup other s.owed)) [
      | inl absent ↦
          ground (arith, insert-IsMap other (record { req = req; sending_on = none }) s.owed k)
      | inr (p, there) ↦ ground arith
    ]

step-IsMap : (s u : Owed) (a : Action) → step s a ≡ some u → IsMap s.owed → IsMap u.owed
unfolding step owed_send owed_delivered owed_connection_ended owed_moot
step-IsMap s u (Action.owes asked) e k = owe_release-IsMap s u asked e k
step-IsMap s u (Action.sends fh generation) e k = elim (Option-cases (lookup fh s.owed)) [
  | inl absent ↦ absurd (ground arith)
  | inr (o, there) ↦
      ground (arith, insert-IsMap fh (record o { sending_on = some generation }) s.owed k)
]
step-IsMap s u (Action.delivers fh generation) e k = ground (arith, erase-IsMap fh s.owed k)
step-IsMap s u (Action.connection_ends generation) e k =
    ground (arith, stop_sending-IsMap generation s.owed k)
step-IsMap s u Action.moots e k = ground arith

later_lookup :
    (fh i : ℕ) (o : OwedRelease) (m : List (ℕ × OwedRelease))
    → Above i m
    → ((p : OwedRelease) × (lookup fh m ≡ some p) × (p.sending_on ≡ none))
    → (p : OwedRelease) × (lookup fh ((i, o) ∷ m) ≡ some p) × (p.sending_on ≡ none)
later_lookup fh i o m a (p, at, unsent) = (p, ground (arith, lookup_below i fh m), unsent)

-- Each handle that `owed_unsent` lists has its release owed, and not being sent.
unsent-lookup :
    (fh k : ℕ) (m : List (ℕ × OwedRelease))
    → IsMap m
    → get_elem? (unsent_keys m) k ≡ some fh
    → (o : OwedRelease) × (lookup fh m ≡ some o) × (o.sending_on ≡ none)
unfolding unsent_keys is_unsent
unsent-lookup fh k [] a at = cc
unsent-lookup fh zero ((i, o) ∷ m) a at = elim (Option-cases o.sending_on) [
  | inl unsent ↦ (o, ground arith, unsent)
  | inr (g, on) ↦
      later_lookup fh i o m a (unsent-lookup fh zero m (Above-IsMap i m a) (ground arith))
]
unsent-lookup fh (suc k) ((i, o) ∷ m) a at = elim (Option-cases o.sending_on) [
  | inl unsent ↦ later_lookup fh i o m a (unsent-lookup fh k m (Above-IsMap i m a) (ground arith))
  | inr (g, on) ↦
      later_lookup fh i o m a (unsent-lookup fh (suc k) m (Above-IsMap i m a) (ground arith))
]

run-IsMap : (s u : Owed) (acts : List Action) → run s acts ≡ some u → IsMap s.owed → IsMap u.owed
unfolding run
run-IsMap s u [] e k = subst (λ (x : Owed). IsMap x.owed) (some-injective _ _ e) k
run-IsMap s u (a ∷ acts) e k =
    let (m, did, rest) = >>=-eq-some (step s a) _ e in
    run-IsMap m u acts rest (step-IsMap s m a did k)

-- In every state that the releases owed reach, from one with an entry for each id at most, what may be sent on a connection is owed, and is being
-- sent on none; and nothing may be sent before the connection is published and its cancels are answered.
pub owed_sendable_lem :
    (s u : Owed) (acts : List Action) (a : AttachedState) (pending k fh : ℕ)
    → IsMap s.owed
    → run s acts ≡ some u
    → get_elem? (owed_sendable u a pending) k ≡ some fh
    → (a.published ≡ true)
      × (pending ≡ 0)
      × ((o : OwedRelease) × (lookup fh u.owed ≡ some o) × (o.sending_on ≡ none))
unfolding owed_sendable owed_unsent
owed_sendable_lem s u acts a pending k fh m e at = elim (Bool-cases (a.published && pending == 0)) [
  | inl may ↦ (
    ground arith,
    ground arith,
    unsent-lookup fh k u.owed (run-IsMap s u acts e m) (ground arith),
  )
  | inr may_not ↦ absurd (ground arith)
]
