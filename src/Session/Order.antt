-- ===== src/Session/Order.antt =====
-- crates/server/src/session.rs: the order that `begin`, `fencing` and `drained` keep among the changes
-- of a session's connections.
pub mod Kept
pub mod OneConnection
pub mod Fence
use jackalopefs.Common.{ℕ, ◌+◌, ◌≤◌, ◌≡◌, ◌⊎◌, Bool, true, false, not, ◌&&◌, ◌==◌, count_if}
use jackalopefs.Session.State.{SessionState, PhaseExchange}
use jackalopefs.Session.Steps.{System, Entry}
use jackalopefs.Session.Counts.{runs, bit}

-- Let through, and not ended.
abbrev pub is_through : PhaseExchange → Bool
is_through PhaseExchange.ready = true
is_through PhaseExchange.running = true
is_through PhaseExchange.abandoned = true
is_through _ = false

abbrev pub through_now : ℕ → Entry → Bool
through_now epoch e = e.exchange.ordered && is_through e.exchange.phase && (epoch == e.epoch)

-- A change that runs, of neither the current connection nor the one of `prev`.
abbrev pub strays : ℕ → ℕ → Entry → Bool
strays epoch prev e = runs e && not (epoch == e.epoch) && not (prev == e.epoch)

-- A change of the current connection is let through only once no older one runs, and the older ones
-- that run are of one connection, of epoch `prev`.
pub record IsOrdered (prev : ℕ) (t : System) : Type 0 where
  pub alone :
      (count_if (through_now t.session.attachment.epoch) t.entries ≡ 0)
      ⊎ (t.session.attachment.running_older ≡ 0)
  pub one_older : count_if (strays t.session.attachment.epoch prev) t.entries ≡ 0

pub record KeepsOrder (prev : ℕ) (s : SessionState) (e : Entry) (s' : SessionState) (e' : Entry)
    : Type 0 where
  pub same_epoch : s'.attachment.epoch ≡ s.attachment.epoch
  pub fewer : s'.attachment.running_older ≤ s.attachment.running_older
  pub through :
      (bit (through_now s.attachment.epoch e') ≤ bit (through_now s.attachment.epoch e))
      ⊎ (s.attachment.running_older ≡ 0)
  pub stray : bit (strays s.attachment.epoch prev e') ≤ bit (strays s.attachment.epoch prev e)
