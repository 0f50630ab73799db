-- ===== src/Session/Counts/Kept.antt =====
-- crates/server/src/session.rs: every step of a session keeps its counts.
use jackalopefs.Common.{
  ℕ, suc, ◌+◌, ◌≤◌, ◌≡◌, refl, sym, subst, ◌∙◌, Bool, true, false, some, some-injective, List, [],
  ◌∷◌, ◌++◌, arith, get_elem?, count_if, count_if-set, count_if-append, All, All-set, All-get_elem?,
  All-append, All-map, >>=-eq-some,
}
use jackalopefs.Session.State.{SessionState, reattach, fencing, new_exchange, is_abandoned}
use jackalopefs.Session.Steps.{System, Entry, Action, created, moved, step, run}
use jackalopefs.Session.Steps.Cases.{
  Change, request, decodes, resumes, comes_or_goes, SameCounts, step_cases, decoded_entry,
}
use jackalopefs.Session.Counts.Moves.{Op-IsMove}
use jackalopefs.Session.Counts.{
  IsRequest, IsCounted, IsMove, runs_now, given_up_now, runs_older, holds, runs, given_up,
}

-- A step of one request keeps the counts of all.
pub moved-IsCounted :
    (t : System) (i : ℕ) (e e' : Entry) (s : SessionState)
    → get_elem? t.entries i ≡ some e
    → IsMove t.session e s e'
    → IsCounted t
    → IsCounted (moved t i s e')
unfolding moved
moved-IsCounted t i e e' s at m c = record {
  requests = rw m.same_epoch (All-set (IsRequest epoch) t.entries i e' m.request c.requests);
  running = rw m.same_epoch (omega (arith, count_if-set (runs_now epoch) t.entries i e e' at));
  abandoned =
      rw m.same_epoch (omega (arith, count_if-set (given_up_now epoch) t.entries i e e' at));
  running_older =
      rw m.same_epoch (omega (arith, count_if-set (runs_older epoch) t.entries i e e' at));
  holders = omega (arith, count_if-set holds t.entries i e e' at);
}
  where
    epoch : ℕ
    epoch = t.session.attachment.epoch

-- The requests of the current connection become an older one's.
older_after :
    (epoch : ℕ) (es : List Entry)
    → All (IsRequest epoch) es
    → count_if (runs_older (suc epoch)) es
      ≡ count_if (runs_older epoch) es + count_if (runs_now epoch) es
older_after epoch [] q = omega arith
older_after epoch (e ∷ es) q = ground (arith, older_after epoch es q.1)

none_now :
    (epoch : ℕ) (es : List Entry)
    → All (IsRequest epoch) es
    → (count_if (runs_now (suc epoch)) es ≡ 0) × (count_if (given_up_now (suc epoch)) es ≡ 0)
none_now epoch [] q = (refl, refl)
none_now epoch (e ∷ es) q = ground (arith, none_now epoch es q.1)

reattach-IsCounted :
    (t : System) → IsCounted t → IsCounted (record t { session = reattach t.session })
unfolding reattach
reattach-IsCounted t c = record {
  requests = All-map (IsRequest epoch) (IsRequest (suc epoch)) later t.entries c.requests;
  running = sym (none_now epoch t.entries c.requests).0;
  abandoned = sym (none_now epoch t.entries c.requests).1;
  running_older = omega (arith, older_after epoch t.entries c.requests, c.running, c.running_older);
  holders = c.holders;
}
  where
    epoch : ℕ
    epoch = t.session.attachment.epoch

    later : (e : Entry) → IsRequest epoch e → IsRequest (suc epoch) e
    later e q = record { not_later = omega arith; hold = q.hold; guarded = q.guarded }

decoded-IsRequest :
    (s : SessionState) (epoch : ℕ) (ordered : Bool)
    → epoch ≤ s.attachment.epoch
    → let e = decoded_entry s epoch ordered in
      IsRequest s.attachment.epoch e × (runs e ≡ false) × (given_up e ≡ false) × (holds e ≡ true)
unfolding fencing new_exchange is_abandoned
decoded-IsRequest s epoch ordered h = ground arith

appended-IsCounted :
    (t : System) (e : Entry) (n : ℕ)
    → t.accepted ≡ suc n
    → IsRequest t.session.attachment.epoch e
      × (runs e ≡ false)
      × (given_up e ≡ false)
      × (holds e ≡ true)
    → IsCounted t
    → IsCounted (record t { accepted = n; entries = t.entries ++ e ∷ [] })
appended-IsCounted t e n h q c = record {
  requests = All-append (IsRequest epoch) t.entries (e ∷ []) c.requests (q.0, tt);
  running = ground (arith, count_if-append (runs_now epoch) t.entries (e ∷ []));
  abandoned = ground (arith, count_if-append (given_up_now epoch) t.entries (e ∷ []));
  running_older = ground (arith, count_if-append (runs_older epoch) t.entries (e ∷ []));
  holders = ground (arith, count_if-append holds t.entries (e ∷ []));
}
  where
    epoch : ℕ
    epoch = t.session.attachment.epoch

-- Streams and connections come and go, and no request moves.
held_by :
    (t : System) (s : SessionState) (n m : ℕ)
    → SameCounts s.attachment t.session.attachment
    → s.holders + t.accepted + t.conns ≡ t.session.holders + n + m
    → IsCounted t
    → IsCounted (record t { session = s; accepted = n; conns = m })
held_by t s n m same h c = record {
  requests = rw same.0 c.requests;
  running = rw same.0 (same.1 ∙ c.running);
  abandoned = rw same.0 (same.2 ∙ c.abandoned);
  running_older = rw same.0 (same.3 ∙ c.running_older);
  holders = omega (arith, c.holders);
}

pub Change-IsCounted : (t u : System) → Change t u → IsCounted t → IsCounted u
Change-IsCounted t u (request i e e' s at op k) c = subst IsCounted k (
    moved-IsCounted t i e e' s at
      (Op-IsMove t.session e s e'
        (All-get_elem? (IsRequest t.session.attachment.epoch) t.entries i at c.requests) op)
      c)
Change-IsCounted t u (decodes epoch n ordered more le k) c =
    subst IsCounted k
      (appended-IsCounted t _ n more (decoded-IsRequest t.session epoch ordered le) c)
Change-IsCounted t u (resumes k) c = subst IsCounted k (reattach-IsCounted t c)
Change-IsCounted t u (comes_or_goes s n m same h k) c = subst IsCounted k (held_by t s n m same h c)

pub created-IsCounted : (id token : ℕ) → IsCounted (created id token)
unfolding created
created-IsCounted id token = record {
  requests = tt;
  running = refl;
  abandoned = refl;
  running_older = refl;
  holders = omega arith;
}

-- From a state whose counts are those of the requests under way, as a new session's is, every history
-- leads to such a state.
pub run-IsCounted :
    (t u : System) (acts : List Action) → run t acts ≡ some u → IsCounted t → IsCounted u
unfolding run
run-IsCounted t u [] h c = subst IsCounted (some-injective _ _ h) c
run-IsCounted t u (a ∷ acts) h c =
    let (m, did, h') = >>=-eq-some (step t a) _ h in
    run-IsCounted m u acts h' (Change-IsCounted t m (step_cases t m a did) c)
