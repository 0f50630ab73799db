-- ===== src/Session/Tasks/Kept.antt =====
-- crates/server/src/session.rs: a step of a task is a step of the session, and keeps every request as its
-- task takes it to be.
use jackalopefs.Common.{
  ℕ, zero, suc, ◌≡◌, ◌⊎◌, inl, inr, refl, sym, ap, ◌∙◌, subst, Bool, Bool-cases, true, false,
  Option, none, some, some-injective, List, [], ◌∷◌, ◌++◌, arith, ◌==◌, if◌then◌else◌, >>=-eq-some,
  get_elem?, length, get_elem?-set_self, get_elem?-set_ne,
}
use jackalopefs.Session.State.{
  SessionState, new_exchange, begin, abandon, fencing, drained, stopped, guard_drop, hold, let_go,
  detach_at,
}
use jackalopefs.Session.Steps.{System, Entry, Action, moved, decode, step, run}
use jackalopefs.Session.Steps.Cases.{decode_inv, decoded_entry}
use jackalopefs.Session.Tasks.{
  Main, Worker, Task, Served, first_task, begun, after_drained, after_abandon, put_task, serve,
  serve_all,
}
use jackalopefs.Session.Tasks.Calls.{
  Agrees, first_task-Agrees, begun-Agrees, abandoned-Agrees, drained-Agrees, stopped-Agrees,
  finished-Agrees,
}

-- Every request agrees with its task.
abbrev pub AllAgree : Served → Type 0
AllAgree d = (i : ℕ) (e : Entry) → get_elem? d.system.entries i ≡ some e → Agrees e (d.tasks i)

moved-AllAgree :
    (t : System) (tasks : ℕ → Task) (i : ℕ) (s : SessionState) (e e' : Entry) (k : Task)
    → get_elem? t.entries i ≡ some e
    → Agrees e' k
    → AllAgree (record { system = t; tasks = tasks })
    → AllAgree (record { system = moved t i s e'; tasks = put_task i k tasks })
unfolding moved put_task
moved-AllAgree t tasks i s e e' k at new all j f there = elim (Bool-cases (j == i)) [
  | inl same ↦
      let is : e' ≡ f = ground (arith, get_elem?-set_self t.entries i e e') in
      rw same (subst (λ y. Agrees y k) is new)
  | inr other ↦ rw other (all j f (ground (arith, get_elem?-set_ne t.entries i j e')))
]

last_or_before :
    (es : List Entry) (e f : Entry) (j : ℕ)
    → get_elem? (es ++ e ∷ []) j ≡ some f
    → ((j == length es) ≡ true) × (e ≡ f) ⊎ ((j == length es) ≡ false) × (get_elem? es j ≡ some f)
last_or_before [] e f zero h = inl (refl, some-injective _ _ h)
last_or_before [] e f (suc j) h = absurd (ground arith)
last_or_before (x ∷ es) e f zero h = inr (ground arith, h)
last_or_before (x ∷ es) e f (suc j) h = elim (last_or_before es e f j h) [
  | inl (p, q) ↦ inl (ground arith, q)
  | inr (p, q) ↦ inr (ground arith, q)
]

decoded-AllAgree :
    (d : Served) (t : System) (epoch : ℕ) (ordered : Bool)
    → decode d.system epoch ordered ≡ some t
    → AllAgree d
    → AllAgree (record {
      system = t;
      tasks =
          put_task
            (length d.system.entries)
            (first_task (fencing d.system.session epoch (new_exchange ordered)).1)
            d.tasks;
    })
unfolding put_task
decoded-AllAgree d t epoch ordered did all j f there =
    let (n, more, le, is) = decode_inv d.system t epoch ordered did in
    let e = decoded_entry d.system.session epoch ordered in
    let entries : d.system.entries ++ e ∷ [] ≡ t.entries = ap (λ (u : System). u.entries) is in
    elim (last_or_before d.system.entries e f j (ap (λ es. get_elem? es j) entries ∙ there)) [
      | inl (last, same) ↦ rw last (
          first_task-Agrees d.system.session epoch ordered f
            (ap (λ (y : Entry). y.exchange) (sym same)))
      | inr (other, at) ↦ rw other (all j f at)
    ]

if_some :
    (test : Bool) (d d' : Served)
    → (if test then some d else none) ≡ some d'
    → (test ≡ true) × (d ≡ d')
if_some true d d' h = (refl, some-injective _ _ h)
if_some false d d' h = absurd (ground arith)

-- A step of a request's task.
moved_lem :
    (d d' : Served) (i : ℕ) (s : SessionState) (e e' : Entry) (k : Task)
    → get_elem? d.system.entries i ≡ some e
    → Agrees e' k
    → AllAgree d
    → ◌≡◌ {A = Served} (record { system = moved d.system i s e'; tasks = put_task i k d.tasks }) d'
    → (some (moved d.system i s e') ≡ some d'.system) × AllAgree d'
moved_lem d d' i s e e' k at new all is = (
  ap (λ (u : Served). some u.system) is,
  subst AllAgree is (moved-AllAgree d.system d.tasks i s e e' k at new all),
)

-- A step that is of no request.
same_entries :
    (d d' : Served) (t : System) (a : Action)
    → step d.system a ≡ some t
    → t.entries ≡ d.system.entries
    → ◌≡◌ {A = Option Served} (some (record d { system = t })) (some d')
    → AllAgree d
    → (step d.system a ≡ some d'.system) × AllAgree d'
same_entries d d' t a did same is all = (
  did ∙ ap (λ (u : Option Served). elim u [ none ↦ none | some v ↦ some v.system ]) is,
  subst AllAgree (some-injective _ _ is)
      (λ i e at. all i e (ap (λ es. get_elem? es i) (sym same) ∙ at)),
)

-- A step of the tasks is a step of the session, and keeps every request as its task is.
serve_lem :
    (d d' : Served) (a : Action)
    → serve d a ≡ some d'
    → AllAgree d
    → (step d.system a ≡ some d'.system) × AllAgree d'
unfolding serve step hold let_go detach_at
serve_lem d d' Action.accepts h all = same_entries d d' _ Action.accepts refl refl h all
serve_lem d d' Action.attaches h all = same_entries d d' _ Action.attaches refl refl h all
serve_lem d d' Action.resumes h all = same_entries d d' _ Action.resumes refl refl h all
serve_lem d d' Action.undecodes h all =
    let (t, did, is) = >>=-eq-some (step d.system Action.undecodes) _ h in
    same_entries d d' t Action.undecodes did (ground arith) is all
serve_lem d d' (Action.detaches now epoch) h all =
    let (t, did, is) = >>=-eq-some (step d.system (Action.detaches now epoch)) _ h in
    same_entries d d' t (Action.detaches now epoch) did (ground arith) is all
serve_lem d d' (Action.decodes epoch ordered) h all =
    let (t, did, is) = >>=-eq-some (step d.system (Action.decodes epoch ordered)) _ h in
    (
      did ∙ ap (λ (u : Option Served). elim u [ none ↦ none | some v ↦ some v.system ]) is,
      subst AllAgree (some-injective _ _ is) (decoded-AllAgree d t epoch ordered did all),
    )
serve_lem d d' (Action.begins i) h all =
    let (e, at, h1) = >>=-eq-some (get_elem? d.system.entries i) _ h in
    let ((s, x, g), did, h2) = >>=-eq-some (begin d.system.session e.epoch e.exchange) _ h1 in
    let (may, is) = if_some _ _ _ h2 in
    rw (at, step)
      (rw did (
        moved_lem d d' i s e (record e { exchange = x; guard = g }) (begun (d.tasks i) g) at
          (begun-Agrees d.system.session s e x g (d.tasks i) may did (all i e at)) all is))
serve_lem d d' (Action.abandons i) h all =
    let (e, at, h1) = >>=-eq-some (get_elem? d.system.entries i) _ h in
    let ((s, x, v), did, h2) = >>=-eq-some (abandon d.system.session e.epoch e.exchange) _ h1 in
    let (may, is) = if_some _ _ _ h2 in
    rw (at, step)
      (rw did (
        moved_lem d d' i s e (record e { exchange = x }) (after_abandon (d.tasks i)) at
          (abandoned-Agrees d.system.session s e x v (d.tasks i) may did (all i e at)) all is))
serve_lem d d' (Action.drains i) h all =
    let (e, at, h1) = >>=-eq-some (get_elem? d.system.entries i) _ h in
    let ((s, x, on), did, h2) = >>=-eq-some (drained d.system.session e.epoch e.exchange) _ h1 in
    let (may, is) = if_some _ _ _ h2 in
    rw (at, step)
      (rw did (
        moved_lem d d' i s e (record e { exchange = x }) (after_drained (d.tasks i) on) at
          (drained-Agrees d.system.session s e x on (d.tasks i) may did (all i e at)) all is))
serve_lem d d' (Action.stops i) h all =
    let (e, at, h1) = >>=-eq-some (get_elem? d.system.entries i) _ h in
    let ((s, x), did, h2) = >>=-eq-some (stopped d.system.session e.exchange) _ h1 in
    let (may, is) = if_some _ _ _ h2 in
    rw (at, step)
      (rw did (
        moved_lem d d' i s e (record e { exchange = x }) (record (d.tasks i) { main = Main.over })
          at (stopped-Agrees d.system.session s e x (d.tasks i) may did (all i e at)) all is))
serve_lem d d' (Action.finishes i) h all =
    let (e, at, h1) = >>=-eq-some (get_elem? d.system.entries i) _ h in
    let (g, has, h2) = >>=-eq-some e.guard _ h1 in
    let ((s, x, w), did, h3) = >>=-eq-some (guard_drop d.system.session g e.exchange) _ h2 in
    let (may, is) = if_some _ _ _ h3 in
    rw (at, step)
      (rw has (
        rw did (
          moved_lem d d' i s e (record e { exchange = x; guard = none })
            (record (d.tasks i) { worker = Worker.ended }) at
            (finished-Agrees d.system.session s e g x w (d.tasks i) may did (all i e at)) all is)))

pub serve_all_lem :
    (d d' : Served) (acts : List Action)
    → serve_all d acts ≡ some d'
    → AllAgree d
    → (run d.system acts ≡ some d'.system) × AllAgree d'
unfolding serve_all run
serve_all_lem d d' [] h all = (
  ap (λ (u : Option Served). elim u [ none ↦ none | some v ↦ some v.system ]) h,
  subst AllAgree (some-injective _ _ h) all,
)
serve_all_lem d d' (a ∷ acts) h all =
    let (m, did, rest) = >>=-eq-some (serve d a) _ h in
    let (now, kept) = serve_lem d m a did all in
    let (ran, end) = serve_all_lem m d' acts rest kept in (rw (now, run) ran, end)
