-- ===== src/Session/Order/OneConnection.antt =====
-- crates/server/src/session.rs: the changes that run are all of one connection.
use jackalopefs.Common.{ℕ, ◌≡◌, inl, true, some, refl, List, arith, get_elem?, count_if-pos}
use jackalopefs.Session.Steps.{System, Entry, Action, created, run}
use jackalopefs.Session.Counts.{IsCounted, runs, runs_older}
use jackalopefs.Session.Counts.Kept.{created-IsCounted}
use jackalopefs.Session.Order.{through_now, strays, IsOrdered}
use jackalopefs.Session.Order.Kept.{run-IsOrdered}

created-IsOrdered : (id token : ℕ) → IsOrdered 0 (created id token)
unfolding created
created-IsOrdered id token = record { alone = inl refl; one_older = refl }

runs_together :
    (prev : ℕ) (u : System) (i j : ℕ) (e f : Entry)
    → IsCounted u
    → IsOrdered prev u
    → get_elem? u.entries i ≡ some e
    → get_elem? u.entries j ≡ some f
    → runs e ≡ true
    → runs f ≡ true
    → e.epoch ≡ f.epoch
runs_together prev u i j e f c o ati atj ri rj = ground (
  arith,
  c.running_older,
  o.alone,
  o.one_older,
  count_if-pos (strays now prev) u.entries i e ati,
  count_if-pos (strays now prev) u.entries j f atj,
  count_if-pos (through_now now) u.entries i e ati,
  count_if-pos (through_now now) u.entries j f atj,
  count_if-pos (runs_older now) u.entries i e ati,
  count_if-pos (runs_older now) u.entries j f atj,
)
  where
    now : ℕ
    now = u.session.attachment.epoch

-- In every state that a session reaches, any two changes that run there came on one connection: a
-- change of a resumed connection never runs beside a change of an earlier one.
pub run-one_connection :
    (id token : ℕ) (acts : List Action) (u : System) (i j : ℕ) (e f : Entry)
    → run (created id token) acts ≡ some u
    → get_elem? u.entries i ≡ some e
    → get_elem? u.entries j ≡ some f
    → runs e ≡ true
    → runs f ≡ true
    → e.epoch ≡ f.epoch
run-one_connection id token acts u i j e f h =
    let (c, (prev, o)) =
      run-IsOrdered 0 (created id token) u acts h (created-IsCounted id token)
        (created-IsOrdered id token) in
    runs_together prev u i j e f c o
