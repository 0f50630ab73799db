-- ===== src/Session/Order/Kept.antt =====
-- crates/server/src/session.rs: every step of a session keeps the order of its changes.
use jackalopefs.Common.{
  ℕ, suc, ◌+◌, ◌≤◌, ◌≡◌, refl, subst, inl, inr, Bool, Bool-cases, some, some-injective, List, [],
  ◌∷◌, ◌++◌, arith, ◌==◌, if◌then◌else◌, get_elem?, count_if, count_if-set, count_if-append, All,
  All-get_elem?, >>=-eq-some,
}
use jackalopefs.Session.State.{
  SessionState, begin, abandon, drained, stopped, guard_drop, is_abandoned, fencing, fence,
  new_exchange, reattach,
}
use jackalopefs.Session.Steps.{System, Entry, Action, moved, step, run}
use jackalopefs.Session.Steps.Cases.{
  Op, begins, abandons, drains, stops, finishes, Change, request, decodes, resumes, comes_or_goes,
  step_cases, decoded_entry,
}
use jackalopefs.Session.Counts.{IsRequest, IsCounted, runs_now, runs_older}
use jackalopefs.Session.Counts.Kept.{Change-IsCounted}
use jackalopefs.Session.Order.{through_now, strays, IsOrdered, KeepsOrder}

Op-KeepsOrder :
    (prev : ℕ) (s : SessionState) (e : Entry) (s' : SessionState) (e' : Entry)
    → IsRequest s.attachment.epoch e
    → Op s e s' e'
    → KeepsOrder prev s e s' e'
unfolding begin abandon drained stopped guard_drop is_abandoned
Op-KeepsOrder prev s e s' e' q (begins x g h k) = ground arith
Op-KeepsOrder prev s e s' e' q (abandons x v h k) = ground arith
Op-KeepsOrder prev s e s' e' q (drains x on h k) = ground arith
Op-KeepsOrder prev s e s' e' q (stops x h k) = ground arith
Op-KeepsOrder prev s e s' e' q (finishes g x woken has h k) = ground arith

moved-IsOrdered :
    (prev : ℕ) (t : System) (i : ℕ) (e e' : Entry) (s : SessionState)
    → get_elem? t.entries i ≡ some e
    → KeepsOrder prev t.session e s e'
    → IsOrdered prev t
    → IsOrdered prev (moved t i s e')
unfolding moved
moved-IsOrdered prev t i e e' s at m o = record {
  alone =
      rw m.same_epoch
        (ground (arith, count_if-set (through_now t.session.attachment.epoch) t.entries i e e' at));
  one_older =
      rw m.same_epoch
        (omega (arith, count_if-set (strays t.session.attachment.epoch prev) t.entries i e e' at));
}

appended-IsOrdered :
    (prev : ℕ) (t : System) (epoch n : ℕ) (ordered : Bool)
    → IsOrdered prev t
    → IsOrdered prev (record t {
      accepted = n;
      entries = t.entries ++ decoded_entry t.session epoch ordered ∷ [];
    })
unfolding fencing fence new_exchange
appended-IsOrdered prev t epoch n ordered o = record {
  alone = ground (arith, count_if-append (through_now now) t.entries new);
  one_older = ground (arith, count_if-append (strays now prev) t.entries new);
}
  where
    now : ℕ
    now = t.session.attachment.epoch

    new : List Entry
    new = decoded_entry t.session epoch ordered ∷ []

-- After a resume nothing is of the new connection, and the older changes that run are those that ran
-- on the last connection and on the ones before.
resumed_counts :
    (epoch prev : ℕ) (es : List Entry)
    → All (IsRequest epoch) es
    → (count_if (through_now (suc epoch)) es ≡ 0)
      × (count_if (runs_now epoch) es ≤ count_if (through_now epoch) es)
      × (count_if (strays (suc epoch) prev) es
          ≤ count_if (strays epoch prev) es + count_if (runs_now epoch) es)
      × (count_if (strays (suc epoch) epoch) es ≤ count_if (runs_older epoch) es)
resumed_counts epoch prev [] q = (refl, omega arith, omega arith, omega arith)
resumed_counts epoch prev (e ∷ es) q = ground (arith, resumed_counts epoch prev es q.1)

-- The connection that the older changes are of, once the session has resumed.
prev_after : ℕ → System → ℕ
prev_after prev t = if t.session.attachment.running == 0 then prev else t.session.attachment.epoch

reattach-IsOrdered :
    (prev : ℕ) (t : System)
    → IsCounted t
    → IsOrdered prev t
    → IsOrdered (prev_after prev t) (record t { session = reattach t.session })
unfolding reattach prev_after
reattach-IsOrdered prev t c o =
    let counts = resumed_counts t.session.attachment.epoch prev t.entries c.requests in
    elim (Bool-cases (t.session.attachment.running == 0)) [
      | inl none_runs ↦ record {
        alone = inl counts.0;
        one_older = rw none_runs (ground (arith, c.running, counts.2, o.one_older));
      }
      | inr some_run ↦ record {
        alone = inl counts.0;
        one_older =
            rw some_run (ground (arith, c.running, c.running_older, counts.1, counts.3, o.alone));
      }
    ]

Change-IsOrdered :
    (prev : ℕ) (t u : System)
    → Change t u
    → IsCounted t
    → IsOrdered prev t
    → (prev' : ℕ) × IsOrdered prev' u
Change-IsOrdered prev t u (request i e e' s at op k) c o = (
  prev,
  subst (IsOrdered prev) k (
      moved-IsOrdered prev t i e e' s at
        (Op-KeepsOrder prev t.session e s e'
          (All-get_elem? (IsRequest t.session.attachment.epoch) t.entries i at c.requests) op)
        o),
)
Change-IsOrdered prev t u (decodes epoch n ordered more le k) c o =
    (prev, subst (IsOrdered prev) k (appended-IsOrdered prev t epoch n ordered o))
Change-IsOrdered prev t u (resumes k) c o =
    (prev_after prev t, subst (IsOrdered (prev_after prev t)) k (reattach-IsOrdered prev t c o))
Change-IsOrdered prev t u (comes_or_goes s n m same h k) c o = (
  prev,
  subst (IsOrdered prev) k
      (record { alone = rw same.0 (ground (arith, o.alone)); one_older = rw same.0 o.one_older }),
)

-- What holds of every state that a session reaches.
pub run-IsOrdered :
    (prev : ℕ) (t u : System) (acts : List Action)
    → run t acts ≡ some u
    → IsCounted t
    → IsOrdered prev t
    → IsCounted u × ((prev' : ℕ) × IsOrdered prev' u)
unfolding run
run-IsOrdered prev t u [] h c o = (
  subst IsCounted (some-injective _ _ h) c,
  (prev, subst (IsOrdered prev) (some-injective _ _ h) o),
)
run-IsOrdered prev t u (a ∷ acts) h c o =
    let (m, did, h') = >>=-eq-some (step t a) _ h in
    let change = step_cases t m a did in
    let (prev', o') = Change-IsOrdered prev t m change c o in
    run-IsOrdered prev' m u acts h' (Change-IsCounted t m change c) o'
