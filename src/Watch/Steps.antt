-- ===== src/Watch/Steps.antt =====
-- crates/server/src/watch.rs: a table of watches from its start, one request, hold and batch of events
-- after another.
use jackalopefs.Common.{
  ℕ, ◌≡◌, ◌⊎◌, inl, inr, refl, subst, ◌∙◌, true, false, Option, none, some, List, [], ◌∷◌, arith,
  All,
}
use jackalopefs.Proto.Message.{FilePath}
use jackalopefs.Watch.Tree.{State, no_more}
use jackalopefs.Watch.Table.{Answer, Marks, Table}
use jackalopefs.Watch.Arm.{done, missing, touch, arm, let_go}
use jackalopefs.Watch.Apply.{RawEvent, apply, apply_from, drop_moving}
use jackalopefs.Watch.Weights.{is_watch, one_watch, weigh, weigh_node}
use jackalopefs.Watch.Counted.{IsExact}
use jackalopefs.Watch.Counted.Placed.{like-IsExact}
use jackalopefs.Watch.Counted.Armed.{
  arm-IsExact, touch-IsLike, let_go-IsLike, Answer-cases, Touched-cases,
}
use jackalopefs.Watch.Counted.Moving.{cookies_once}
use jackalopefs.Watch.Counted.Batches.{apply-IsExact}

-- `Watches::arm` of a server with change notification.
unfoldable pub watches_arm : FilePath → ℕ → Table → Table × Option ℕ
unfolding touch arm
watches_arm dir now t =
    let (u, found) = touch dir now t in
    elim found [ done held ↦ (u, held) | missing ↦ arm dir now u ]

pub data Action : Type 0 where
  arms : (dir : FilePath) (now : ℕ) → Action
  lets_go : (mark : ℕ) → Action
  applies : List RawEvent → Action

-- The table with the root's watch.
unfoldable pub watch_root : Marks → ℕ → ℕ → Table
watch_root marks budget wd = record {
  marks = marks;
  calls = 2;
  stamps = record { used = 0; holds = 0 } ∷ [];
  root = record { mark = 0; state = State.watched wd; children = no_more };
  by_wd = (wd, []) ∷ [];
  watched = 0;
  budget = budget;
  capped = none;
  round = 0;
  dead = false;
  out = [];
  underflow = false;
}

-- `Table::new`; `none` is an error of the system.
unfoldable pub new : Marks → ℕ → Option Table
unfolding watch_root
new marks budget = elim (marks.open_dir 0 []) [
  | Answer.err e ↦ none
  | Answer.ok dir ↦ elim (marks.add 1 dir) [
    | Answer.err e ↦ none
    | Answer.ok wd ↦ some (watch_root marks budget wd)
  ]
]

-- One step, with what it puts in `out`.
unfoldable pub step : Table → Action → Table
unfolding watches_arm let_go apply
step t (Action.arms dir now) = (watches_arm dir now (record t { out = [] })).0
step t (Action.lets_go m) = let_go m (record t { out = [] })
step t (Action.applies events) = apply events (record t { out = [] })

unfoldable pub run : Table → List Action → Table
unfolding step
run t [] = t
run t (a ∷ acts) = run (step t a) acts

-- The system pairs the two halves of a move by a cookie that no other move of the batch has.
unfoldable pub IsPaired : Action → Type 0
unfolding cookies_once
IsPaired (Action.arms dir now) = Unit {0}
IsPaired (Action.lets_go m) = Unit {0}
IsPaired (Action.applies events) = cookies_once events ≡ true

IsSound : Table → Type 0
IsSound t = (t.dead ≡ true) ⊎ IsExact t (λ w. 0) 0

root-IsExact : (marks : Marks) (budget wd : ℕ) → IsExact (watch_root marks budget wd) (λ w. 0) 0
unfolding watch_root is_watch one_watch weigh weigh_node
root-IsExact marks budget wd = record {
  ids = tt;
  rooted = refl;
  keys = λ w. ground arith;
  count = refl;
  sound = refl;
}

new-IsSound : (marks : Marks) (budget : ℕ) (t : Table) → new marks budget ≡ some t → IsSound t
unfolding new IsSound
new-IsSound marks budget t e = elim (Answer-cases (marks.open_dir 0 [])) [
  | inr (errno, ae) ↦ absurd (ground arith)
  | inl (dir, ae) ↦ elim (Answer-cases (marks.add 1 dir)) [
    | inr (errno, be) ↦ absurd (ground arith)
    | inl (wd, be) ↦
        inr (
          subst (λ (u : Table). IsExact u (λ w. 0) 0) (ground arith) (root-IsExact marks budget wd))
  ]
]

emptied-IsExact : (t : Table) → IsExact t (λ w. 0) 0 → IsExact (record t { out = [] }) (λ w. 0) 0
emptied-IsExact t c = record {
  ids = c.ids;
  rooted = c.rooted;
  keys = c.keys;
  count = c.count;
  sound = c.sound;
}

watches_arm-IsExact :
    (dir : FilePath) (now : ℕ) (t : Table)
    → IsExact t (λ w. 0) 0
    → IsExact (watches_arm dir now t).0 (λ w. 0) 0
unfolding watches_arm
watches_arm-IsExact dir now t c =
    let u = (touch dir now t).0 in
    let cu = like-IsExact t u _ _ (touch-IsLike dir now t) c in
    elim (Touched-cases (touch dir now t).1) [
      | inl (h, e) ↦ subst (λ v. IsExact v (λ w. 0) 0) (ground arith) cu
      | inr e ↦ subst (λ v. IsExact v (λ w. 0) 0) (ground arith) (arm-IsExact dir now u _ _ cu)
    ]

watches_arm-dead :
    (dir : FilePath) (now : ℕ) (t : Table) → t.dead ≡ true → (watches_arm dir now t).0.dead ≡ true
unfolding watches_arm touch
watches_arm-dead dir now t e = ground arith

apply-dead : (es : List RawEvent) (t : Table) → t.dead ≡ true → (apply es t).dead ≡ true
unfolding apply apply_from drop_moving
apply-dead [] t e = e
apply-dead (x ∷ es) t e = ground arith

let_go-dead : (m : ℕ) (t : Table) → (let_go m t).dead ≡ t.dead
unfolding let_go
let_go-dead m t = ground arith

step-IsSound : (t : Table) (a : Action) → IsPaired a → IsSound t → IsSound (step t a)
unfolding step IsSound IsPaired
step-IsSound t (Action.arms dir now) p (inl dead) =
    inl (watches_arm-dead dir now (record t { out = [] }) dead)
step-IsSound t (Action.arms dir now) p (inr c) =
    inr (watches_arm-IsExact dir now (record t { out = [] }) (emptied-IsExact t c))
step-IsSound t (Action.lets_go m) p (inl dead) = inl (let_go-dead m (record t { out = [] }) ∙ dead)
step-IsSound t (Action.lets_go m) p (inr c) =
    let u = record t { out = [] } in
    inr (like-IsExact u (let_go m u) _ _ (let_go-IsLike m u) (emptied-IsExact t c))
step-IsSound t (Action.applies es) p (inl dead) = inl (apply-dead es (record t { out = [] }) dead)
step-IsSound t (Action.applies es) p (inr c) =
    apply-IsExact es (record t { out = [] }) p (emptied-IsExact t c)

run-IsSound :
    (t : Table) (acts : List Action) → All IsPaired acts → IsSound t → IsSound (run t acts)
unfolding run
run-IsSound t [] ps s = s
run-IsSound t (a ∷ acts) ps s = run-IsSound (step t a) acts ps.1 (step-IsSound t a ps.0 s)

-- Whatever the system answers: after any requests, drops of holds and batches of events, if no batch has
-- a cookie under which two directories leave, the table has ended, or it is counted. That is, its
-- descriptors are those of its directories, each of exactly one; `watched` is how many directories but
-- the root it watches; and `watched` was never taken below zero.
pub run-IsExact :
    (marks : Marks) (budget : ℕ) (t : Table) (acts : List Action)
    → new marks budget ≡ some t
    → All IsPaired acts
    → ((run t acts).dead ≡ true) ⊎ IsExact (run t acts) (λ w. 0) 0
unfolding IsSound
run-IsExact marks budget t acts e ps = run-IsSound t acts ps (new-IsSound marks budget t e)
