-- ===== src/Session/Steps/Cases.antt =====
-- crates/server/src/session.rs: what a step of a session is, seen from the session: a request moves, a
-- request is decoded, the session resumes, or a stream or a connection comes or goes.
use jackalopefs.Common.{
  ℕ, suc, ◌+◌, ◌-◌, ◌≤◌, ◌≡◌, refl, Bool, Option, none, some, some-injective, [], ◌∷◌, ◌++◌, arith,
  get_elem?, >>=-eq-some, checked_pred,
}
use jackalopefs.Session.State.{
  SessionState, Attachment, Exchange, GuardExchange, Verdict, hold, let_go, detach_at, reattach,
  fencing, new_exchange, begin, abandon, drained, stopped, guard_drop,
}
use jackalopefs.Session.Steps.{System, Entry, Action, moved, decode, step}

-- A request's move from `e` to `e'`, the session's from `s` to `s'`.
pub data Op (s : SessionState) (e : Entry) (s' : SessionState) (e' : Entry) : Type 0 where
  begins :
      (x : Exchange) (g : Option GuardExchange)
      → begin s e.epoch e.exchange ≡ some (s', x, g)
      → e' ≡ record e { exchange = x; guard = g }
      → Op s e s' e'
  abandons :
      (x : Exchange) (v : Verdict)
      → abandon s e.epoch e.exchange ≡ some (s', x, v)
      → e' ≡ record e { exchange = x }
      → Op s e s' e'
  drains :
      (x : Exchange) (goes_on : Option Bool)
      → drained s e.epoch e.exchange ≡ some (s', x, goes_on)
      → e' ≡ record e { exchange = x }
      → Op s e s' e'
  stops :
      (x : Exchange)
      → stopped s e.exchange ≡ some (s', x)
      → e' ≡ record e { exchange = x }
      → Op s e s' e'
  finishes :
      (g : GuardExchange) (x : Exchange) (woken : Bool)
      → e.guard ≡ some g
      → guard_drop s g e.exchange ≡ some (s', x, woken)
      → e' ≡ record e { exchange = x; guard = none }
      → Op s e s' e'

-- The attachments agree on the epoch and the counts.
abbrev pub SameCounts : Attachment → Attachment → Type 0
SameCounts a b =
    (a.epoch ≡ b.epoch)
    × (a.running ≡ b.running)
    × (a.abandoned ≡ b.abandoned)
    × (a.running_older ≡ b.running_older)

abbrev pub decoded_entry : SessionState → ℕ → Bool → Entry
decoded_entry s epoch ordered = record {
  epoch = epoch;
  exchange = (fencing s epoch (new_exchange ordered)).0;
  guard = none;
}

pub data Change (t u : System) : Type 0 where
  request :
      (i : ℕ) (e e' : Entry) (s : SessionState)
      → get_elem? t.entries i ≡ some e
      → Op t.session e s e'
      → moved t i s e' ≡ u
      → Change t u
  decodes :
      (epoch n : ℕ) (ordered : Bool)
      → t.accepted ≡ suc n
      → epoch ≤ t.session.attachment.epoch
      → record t { accepted = n; entries = t.entries ++ decoded_entry t.session epoch ordered ∷ [] }
        ≡ u
      → Change t u
  resumes : record t { session = reattach t.session } ≡ u → Change t u
  comes_or_goes :
      (s : SessionState) (n m : ℕ)
      → SameCounts s.attachment t.session.attachment
      → s.holders + t.accepted + t.conns ≡ t.session.holders + n + m
      → record t { session = s; accepted = n; conns = m } ≡ u
      → Change t u

module _ (t u : System) where
  -- A request is decoded if a stream waits for it and its connection is not later than the session's.
  pub decode_inv :
      (epoch : ℕ) (ordered : Bool)
      → decode t epoch ordered ≡ some u
      → (n : ℕ) × (t.accepted ≡ suc n)
        × (epoch ≤ t.session.attachment.epoch)
        × (record t {
          accepted = n;
          entries = t.entries ++ decoded_entry t.session epoch ordered ∷ [];
        }
            ≡ u)
  unfolding decode
  decode_inv epoch ordered h = (t.accepted - 1, ground arith, ground arith, ground arith)

  decode_cases : (epoch : ℕ) (ordered : Bool) → decode t epoch ordered ≡ some u → Change t u
  decode_cases epoch ordered h =
      let (n, more, le, eq) = decode_inv epoch ordered h in decodes epoch n ordered more le eq

  undecode_cases : step t Action.undecodes ≡ some u → Change t u
  unfolding step let_go
  undecode_cases h =
      let (n, less, h') = >>=-eq-some (checked_pred t.accepted) _ h in
      let (s, left, h'') = >>=-eq-some (let_go t.session) _ h' in
      comes_or_goes s n t.conns (ground arith) (ground arith) (ground arith)

  detach_cases : (now epoch : ℕ) → step t (Action.detaches now epoch) ≡ some u → Change t u
  unfolding step let_go detach_at
  detach_cases now epoch h =
      let (n, less, h') = >>=-eq-some (checked_pred t.conns) _ h in
      let (s, left, h'') = >>=-eq-some (let_go (detach_at now epoch t.session)) _ h' in
      comes_or_goes s t.accepted n (ground arith) (ground arith) (ground arith)

  -- Every step is one of these.
  pub step_cases : (a : Action) → step t a ≡ some u → Change t u
  unfolding step hold
  step_cases Action.accepts h =
      comes_or_goes (hold t.session) (suc t.accepted) t.conns (refl, refl, refl, refl) (omega arith)
        (some-injective _ _ h)
  step_cases Action.attaches h =
      comes_or_goes (hold t.session) t.accepted (suc t.conns) (refl, refl, refl, refl) (omega arith)
        (some-injective _ _ h)
  step_cases Action.undecodes h = undecode_cases h
  step_cases (Action.detaches now epoch) h = detach_cases now epoch h
  step_cases Action.resumes h = resumes (some-injective _ _ h)
  step_cases (Action.decodes epoch ordered) h = decode_cases epoch ordered h
  step_cases (Action.begins i) h =
      let (e, at, h') = >>=-eq-some (get_elem? t.entries i) _ h in
      let ((s, x, g), did, h'') = >>=-eq-some (begin t.session e.epoch e.exchange) _ h' in
      request i e _ s at (begins x g did refl) (some-injective _ _ h'')
  step_cases (Action.abandons i) h =
      let (e, at, h') = >>=-eq-some (get_elem? t.entries i) _ h in
      let ((s, x, v), did, h'') = >>=-eq-some (abandon t.session e.epoch e.exchange) _ h' in
      request i e _ s at (abandons x v did refl) (some-injective _ _ h'')
  step_cases (Action.drains i) h =
      let (e, at, h') = >>=-eq-some (get_elem? t.entries i) _ h in
      let ((s, x, on), did, h'') = >>=-eq-some (drained t.session e.epoch e.exchange) _ h' in
      request i e _ s at (drains x on did refl) (some-injective _ _ h'')
  step_cases (Action.stops i) h =
      let (e, at, h') = >>=-eq-some (get_elem? t.entries i) _ h in
      let ((s, x), did, h'') = >>=-eq-some (stopped t.session e.exchange) _ h' in
      request i e _ s at (stops x did refl) (some-injective _ _ h'')
  step_cases (Action.finishes i) h =
      let (e, at, h') = >>=-eq-some (get_elem? t.entries i) _ h in
      let (g, has, h'') = >>=-eq-some e.guard _ h' in
      let ((s, x, woken), did, h3) = >>=-eq-some (guard_drop t.session g e.exchange) _ h'' in
      request i e _ s at (finishes g x woken has did refl) (some-injective _ _ h3)
