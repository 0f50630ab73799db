-- ===== src/Session/Counts.antt =====
-- crates/server/src/session.rs: what the counts of an `Attachment` count. The children prove that
-- every step keeps them.
pub mod Moves
pub mod Kept
use jackalopefs.Common.{
  ℕ, ◌+◌, ◌≤◌, ◌≡◌, Bool, true, false, not, ◌&&◌, none, some, ◌==◌, if◌then◌else◌, count_if, All,
}
use jackalopefs.Session.State.{SessionState, PhaseExchange, is_abandoned}
use jackalopefs.Session.Steps.{System, Entry}

-- Begun and not ended.
abbrev pub is_active : PhaseExchange → Bool
is_active PhaseExchange.running = true
is_active PhaseExchange.abandoned = true
is_active _ = false

-- Not ended.
abbrev pub is_live : PhaseExchange → Bool
is_live PhaseExchange.running = true
is_live PhaseExchange.abandoned = true
is_live PhaseExchange.held = true
is_live PhaseExchange.ready = true
is_live _ = false

-- A change that runs.
abbrev pub runs : Entry → Bool
runs e = e.exchange.ordered && is_active e.exchange.phase

-- A change that runs, and that its client has given up on.
abbrev pub given_up : Entry → Bool
given_up e = e.exchange.ordered && is_abandoned e.exchange.phase

abbrev pub runs_now : ℕ → Entry → Bool
runs_now epoch e = runs e && (epoch == e.epoch)

abbrev pub given_up_now : ℕ → Entry → Bool
given_up_now epoch e = given_up e && (epoch == e.epoch)

abbrev pub runs_older : ℕ → Entry → Bool
runs_older epoch e = runs e && not (epoch == e.epoch)

abbrev pub holds : Entry → Bool
holds e = e.exchange.holder

-- What is true of each request, at the session's epoch.
pub record IsRequest (epoch : ℕ) (e : Entry) : Type 0 where
  pub not_later : e.epoch ≤ epoch
  pub hold : e.exchange.holder ≡ is_live e.exchange.phase
  pub guarded :
      e.guard ≡ (if is_active e.exchange.phase then some (record { epoch = e.epoch }) else none)

-- The counts are of the requests under way, and so are the holds.
pub record IsCounted (t : System) : Type 0 where
  pub requests : All (IsRequest t.session.attachment.epoch) t.entries
  pub running :
      t.session.attachment.running ≡ count_if (runs_now t.session.attachment.epoch) t.entries
  pub abandoned :
      t.session.attachment.abandoned ≡ count_if (given_up_now t.session.attachment.epoch) t.entries
  pub running_older :
      t.session.attachment.running_older
      ≡ count_if (runs_older t.session.attachment.epoch) t.entries
  pub holders : t.session.holders ≡ t.accepted + t.conns + count_if holds t.entries

abbrev pub bit : Bool → ℕ
bit b = if b then 1 else 0

-- What a step of one request does to the session, `e` becoming `e'`.
pub record IsMove (s : SessionState) (e : Entry) (s' : SessionState) (e' : Entry) : Type 0 where
  pub same_epoch : s'.attachment.epoch ≡ s.attachment.epoch
  pub request : IsRequest s.attachment.epoch e'
  pub running :
      s'.attachment.running + bit (runs_now s.attachment.epoch e)
      ≡ s.attachment.running + bit (runs_now s.attachment.epoch e')
  pub abandoned :
      s'.attachment.abandoned + bit (given_up_now s.attachment.epoch e)
      ≡ s.attachment.abandoned + bit (given_up_now s.attachment.epoch e')
  pub running_older :
      s'.attachment.running_older + bit (runs_older s.attachment.epoch e)
      ≡ s.attachment.running_older + bit (runs_older s.attachment.epoch e')
  pub holders : s'.holders + bit (holds e) ≡ s.holders + bit (holds e')
