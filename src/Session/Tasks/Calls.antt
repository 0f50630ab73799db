-- ===== src/Session/Tasks/Calls.antt =====
-- crates/server/src/session.rs: a request is always in the phase that its task takes it to be in.
use jackalopefs.Common.{
  ℕ, ◌≡◌, ◌≢◌, inl, inr, Bool, true, false, Option, none, some, arith, >>=-eq-some,
}
use jackalopefs.Session.State.{
  SessionState, Exchange, PhaseExchange, GuardExchange, Verdict, new_exchange, end_exchange, begin,
  abandon, fencing, drained, stopped, guard_drop,
}
use jackalopefs.Session.Steps.{Entry}
use jackalopefs.Session.Counts.{is_active}
use jackalopefs.Session.Progress.{MayBegin}
use jackalopefs.Session.Tasks.{
  Main, Worker, Task, first_task, begun, after_drained, after_abandon, may_cancel, is_draining,
  is_joining, is_spawned, is_running,
}

-- What the phase of a request is where its task and its worker are.
pub record Agrees (e : Entry) (k : Task) : Type 0 where
  pub draining :
      is_draining k.main ≡ true
      → (e.exchange.phase ≡ PhaseExchange.held)
        × (e.exchange.ordered ≡ true)
        × (is_spawned k.worker ≡ false)
        × (is_running k.worker ≡ false)
  pub joining :
      is_joining k.main ≡ true
      → (e.exchange.phase ≢ PhaseExchange.cancelled)
        × (e.exchange.phase ≢ PhaseExchange.abandoned)
        × (e.exchange.phase ≢ PhaseExchange.dropped)
  pub spawned : is_spawned k.worker ≡ true → MayBegin e.exchange
  pub running : is_running k.worker ≡ true → is_active e.exchange.phase ≡ true

pub first_task-Agrees :
    (s : SessionState) (epoch : ℕ) (ordered : Bool) (e : Entry)
    → e.exchange ≡ (fencing s epoch (new_exchange ordered)).0
    → Agrees e (first_task (fencing s epoch (new_exchange ordered)).1)
unfolding fencing new_exchange first_task is_draining is_joining is_spawned is_running
first_task-Agrees s epoch ordered e is = record {
  draining = λ h. ground arith;
  joining = λ h. (λ p. ground arith, λ p. ground arith, λ p. ground arith);
  spawned = λ h. inl (ground arith);
  running = λ h. ground arith;
}

pub begun-Agrees :
    (s s' : SessionState) (e : Entry) (x : Exchange) (g : Option GuardExchange) (k : Task)
    → is_spawned k.worker ≡ true
    → begin s e.epoch e.exchange ≡ some (s', x, g)
    → Agrees e k
    → Agrees (record e { exchange = x; guard = g }) (begun k g)
unfolding begin begun is_draining is_joining is_spawned is_running
begun-Agrees s s' e x none k sp did c = record {
  draining = λ p. ground (arith, c.draining p);
  joining = λ p. (
    λ q. ground (arith, c.joining p, c.spawned sp),
    λ q. ground (arith, c.joining p, c.spawned sp),
    λ q. ground (arith, c.joining p, c.spawned sp),
  );
  spawned = λ p. ground arith;
  running = λ p. ground arith;
}
begun-Agrees s s' e x (some g) k sp did c = record {
  draining = λ p. ground (arith, c.draining p);
  joining = λ p. (
    λ q. ground (arith, c.joining p, c.spawned sp),
    λ q. ground (arith, c.joining p, c.spawned sp),
    λ q. ground (arith, c.joining p, c.spawned sp),
  );
  spawned = λ p. ground arith;
  running = λ p. ground (arith, c.spawned sp);
}

pub abandoned-Agrees :
    (s s' : SessionState) (e : Entry) (x : Exchange) (v : Verdict) (k : Task)
    → may_cancel k e.exchange ≡ true
    → abandon s e.epoch e.exchange ≡ some (s', x, v)
    → Agrees e k
    → Agrees (record e { exchange = x }) (after_abandon k)
unfolding abandon after_abandon is_draining is_joining is_spawned is_running
abandoned-Agrees s s' e x v k may did c = record {
  draining = λ p. ground arith;
  joining = λ p. (λ q. ground arith, λ q. ground arith, λ q. ground arith);
  spawned = λ p. inr (ground (arith, c.spawned p), ground (arith, c.spawned p));
  running = λ p. ground (arith, c.running p);
}

pub drained-Agrees :
    (s s' : SessionState) (e : Entry) (x : Exchange) (on : Option Bool) (k : Task)
    → is_draining k.main ≡ true
    → drained s e.epoch e.exchange ≡ some (s', x, on)
    → Agrees e k
    → Agrees (record e { exchange = x }) (after_drained k on)
unfolding drained after_drained is_draining is_joining is_spawned is_running
drained-Agrees s s' e x none k h did c = record {
  draining = λ p. ground (arith, c.draining h);
  joining = λ p. ground arith;
  spawned = λ p. ground (arith, c.draining h);
  running = λ p. ground (arith, c.draining h);
}
drained-Agrees s s' e x (some true) k h did c = record {
  draining = λ p. ground arith;
  joining = λ p. (λ q. ground arith, λ q. ground arith, λ q. ground arith);
  spawned = λ p. inl (ground arith);
  running = λ p. ground arith;
}
drained-Agrees s s' e x (some false) k h did c = record {
  draining = λ p. ground arith;
  joining = λ p. ground arith;
  spawned = λ p. ground (arith, c.draining h);
  running = λ p. ground (arith, c.draining h);
}

pub stopped-Agrees :
    (s s' : SessionState) (e : Entry) (x : Exchange) (k : Task)
    → is_draining k.main ≡ true
    → stopped s e.exchange ≡ some (s', x)
    → Agrees e k
    → Agrees (record e { exchange = x }) (record k { main = Main.over })
unfolding is_draining is_joining
stopped-Agrees s s' e x k h did c = record {
  draining = λ p. ground arith;
  joining = λ p. ground arith;
  spawned = λ p. ground (arith, c.draining h);
  running = λ p. ground (arith, c.draining h);
}

end_exchange_phase :
    (s s' : SessionState) (y x : Exchange) (to : PhaseExchange)
    → end_exchange s y to ≡ some (s', x)
    → x.phase ≡ to
unfolding end_exchange
end_exchange_phase s s' y x to e = ground arith

pub finished-Agrees :
    (s s' : SessionState) (e : Entry) (g : GuardExchange) (x : Exchange) (woken : Bool) (k : Task)
    → is_running k.worker ≡ true
    → guard_drop s g e.exchange ≡ some (s', x, woken)
    → Agrees e k
    → Agrees (record e { exchange = x; guard = none }) (record k { worker = Worker.ended })
unfolding is_spawned is_running guard_drop
finished-Agrees s s' e g x woken k h did c =
    let phase = finished_phase s s' g e.exchange x woken did in
    record {
      draining = λ p. ground (arith, c.draining p);
      joining = λ p. (λ q. cc, λ q. cc, λ q. cc);
      spawned = λ p. ground arith;
      running = λ p. ground arith;
    }
  where
    finished_phase :
        (s s' : SessionState) (g : GuardExchange) (y x : Exchange) (woken : Bool)
        → guard_drop s g y ≡ some (s', x, woken)
        → x.phase ≡ PhaseExchange.finished
    finished_phase s s' g y x woken did =
        let ((s1, x1), ended, rest) = >>=-eq-some (end_exchange s y PhaseExchange.finished) _ did in
        ground (arith, end_exchange_phase s s1 y x1 PhaseExchange.finished ended)
