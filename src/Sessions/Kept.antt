-- ===== src/Sessions/Kept.antt =====
-- crates/server/src/session.rs: that no session that is left is out of reach, but for those forgotten.
use jackalopefs.Common.{
  ℕ, suc, ◌≤◌, ◌≡◌, ◌⊎◌, inl, inr, refl, ap, sym, subst, Bool, Bool-cases, true, false, not, ◌&&◌,
  ◌||◌, some, some-injective, List, [], ◌∷◌, arith, ◌==◌, >>=-eq-some, filter_if, lookup, insert,
  erase, alter, is_key, lookup-insert, lookup-alter, lookup-erase_ne,
}
use jackalopefs.Session.State.{SessionState, hold, let_go, reattach, detach_at}
use jackalopefs.Sessions.Table.{
  Sessions, has, without_id, insert_id, retire, retire_all, surplus, new_session, create, resume,
  forget, attach, detach, expired_in, detached_in, reap,
}
use jackalopefs.Sessions.Found.{IsResumed, resume-IsResumed}
use jackalopefs.Sessions.Steps.{World, Action, start, put, step, run}

has-filter_if :
    (p : ℕ → Bool) (id : ℕ) (ids : List ℕ) → has id (filter_if p ids) ≡ (has id ids && p id)
unfolding has
has-filter_if p id [] = refl
has-filter_if p id (j ∷ ids) = elim (Bool-cases (id == j)) [
  | inl e ↦ let same : id ≡ j = ground arith in ground (arith, has-filter_if p id ids, ap p same)
  | inr e ↦ ground (arith, has-filter_if p id ids)
]

pub has-without_id :
    (id j : ℕ) (ids : List ℕ) → has j (without_id id ids) ≡ (has j ids && not (j == id))
unfolding without_id
has-without_id id j ids = has-filter_if (λ i. not (i == id)) j ids

pub has-insert_id : (id j : ℕ) (ids : List ℕ) → has j (insert_id id ids) ≡ (j == id || has j ids)
unfolding has insert_id
has-insert_id id j ids = ground (arith, has-without_id id j ids)

is_key-insert :
    (id j : ℕ) (s : SessionState) (m : List (ℕ × SessionState))
    → is_key j (insert id s m) ≡ (j == id || is_key j m)
is_key-insert id j s m = ground (arith, lookup-insert id j s m)

is_key-alter :
    (id j : ℕ) (f : SessionState → SessionState) (m : List (ℕ × SessionState))
    → is_key j (alter id f m) ≡ is_key j m
is_key-alter id j f m = ground (arith, lookup-alter id j f m)

-- What holds every session that is left, and that the table's sessions are.
pub record IsKept (t : Sessions) (forgotten : List ℕ) : Type 0 where
  pub fresh : (id : ℕ) → is_key id t.heap ≡ true → id ≤ t.next_id
  pub held : (id : ℕ) → has id t.map ≡ true → is_key id t.heap ≡ true
  pub listed :
      (id : ℕ)
      → is_key id t.heap ≡ true
      → (has id t.map ≡ true) ⊎ (has id t.dropped ≡ true) ⊎ (has id forgotten ≡ true)

retired-IsKept :
    (t : Sessions) (gone : List ℕ) (id : ℕ)
    → IsKept t gone
    → IsKept
        (record t {
          map = without_id id t.map;
          dropped = insert_id id (filter_if (λ j. is_key j t.heap) t.dropped);
        })
        gone
retired-IsKept t gone id i = record {
  fresh = i.fresh;
  held = λ j h. i.held j (ground (arith, has-without_id id j t.map));
  listed = λ j k. ground (
    arith,
    i.listed j k,
    has-without_id id j t.map,
    has-insert_id id j (filter_if (λ x. is_key x t.heap) t.dropped),
    has-filter_if (λ x. is_key x t.heap) j t.dropped,
  );
}

retire-IsKept : (t : Sessions) (gone : List ℕ) (id : ℕ) → IsKept t gone → IsKept (retire t id) gone
unfolding retire
retire-IsKept t gone id i = elim (Bool-cases (has id t.map)) [
  | inr e ↦ subst (λ x. IsKept x gone) (ground arith) i
  | inl e ↦ subst (λ x. IsKept x gone) (ground arith) (retired-IsKept t gone id i)
]

retire_all-IsKept :
    (t : Sessions) (gone ids : List ℕ) → IsKept t gone → IsKept (retire_all t ids) gone
unfolding retire_all
retire_all-IsKept t gone [] i = i
retire_all-IsKept t gone (id ∷ ids) i =
    retire_all-IsKept (retire t id) gone ids (retire-IsKept t gone id i)

pub retire_all-same :
    (t : Sessions) (ids : List ℕ)
    → ((retire_all t ids).heap ≡ t.heap) × ((retire_all t ids).next_id ≡ t.next_id)
unfolding retire_all retire
retire_all-same t [] = (refl, refl)
retire_all-same t (id ∷ ids) = elim (Bool-cases (has id t.map)) [
  | inl e ↦ ground (arith, retire_all-same (retire t id) ids)
  | inr e ↦ ground (arith, retire_all-same (retire t id) ids)
]

-- What is done to one session in the store, which stays there.
altered-IsKept :
    (t : Sessions) (gone : List ℕ) (id : ℕ) (f : SessionState → SessionState)
    → IsKept t gone
    → IsKept (record t { heap = alter id f t.heap }) gone
altered-IsKept t gone id f i = record {
  fresh = λ j k. i.fresh j (ground (arith, is_key-alter id j f t.heap));
  held = λ j h. ground (arith, is_key-alter id j f t.heap, i.held j h);
  listed = λ j k. i.listed j (ground (arith, is_key-alter id j f t.heap));
}

put-IsKept :
    (t : Sessions) (gone : List ℕ) (id : ℕ) (s old : SessionState)
    → lookup id t.heap ≡ some old
    → IsKept t gone
    → IsKept (put t id s) gone
unfolding put
put-IsKept t gone id s old at i = record {
  fresh = λ j k. i.fresh j (ground (arith, is_key-insert id j s t.heap));
  held = λ j h. ground (arith, is_key-insert id j s t.heap, i.held j h);
  listed = λ j k. i.listed j (ground (arith, is_key-insert id j s t.heap));
}

create-IsKept :
    (t : Sessions) (gone : List ℕ) (token : ℕ) → IsKept t gone → IsKept (create t token).0 gone
unfolding create
create-IsKept t gone token i =
    let u = retire_all t (surplus t) in
    let k : IsKept u gone = retire_all-IsKept t gone (surplus t) i in
    let s = new_session (suc t.next_id) token in
    record {
      fresh = λ j h.
          let here : (j == suc t.next_id || is_key j u.heap) ≡ true =
            ground (arith, is_key-insert (suc t.next_id) j s u.heap) in
          ground (arith, k.fresh j, retire_all-same t (surplus t));
      held = λ j h. ground (
        arith,
        is_key-insert (suc t.next_id) j s u.heap,
        has-insert_id (suc t.next_id) j u.map,
        k.held j,
      );
      listed = λ j h. ground (
        arith,
        is_key-insert (suc t.next_id) j s u.heap,
        has-insert_id (suc t.next_id) j u.map,
        k.listed j,
      );
    }

resume-IsKept :
    (t u : Sessions) (gone : List ℕ) (id token : ℕ) (s : SessionState)
    → IsResumed t u id token s
    → IsKept t gone
    → IsKept u gone
resume-IsKept t u gone id token s r i =
    let keys : (j : ℕ) → is_key j u.heap ≡ is_key j t.heap = λ j.
      subst (λ x. is_key j x ≡ is_key j t.heap) (sym r.heap) (is_key-alter id j reattach t.heap) in
    record {
      fresh = λ j k. subst (λ x. j ≤ x) (sym r.next_id) (i.fresh j (ground (arith, keys j)));
      held = λ j h. elim (Bool-cases (j == id)) [
        | inl e ↦
            let same : j ≡ id = ground arith in
            ground (arith, keys j, subst (λ x. lookup x t.heap ≡ some s) (sym same) r.at)
        | inr e ↦ ground (arith, keys j, r.moved, has-insert_id id j t.map, i.held j)
      ];
      listed = λ j k. ground (
        arith,
        keys j,
        r.moved,
        has-insert_id id j t.map,
        has-without_id id j t.dropped,
        i.listed j,
      );
    }

reap-IsKept :
    (t : Sessions) (gone : List ℕ) (now grace : ℕ)
    → IsKept t gone
    → IsKept (reap now t grace).0 gone
unfolding reap
reap-IsKept t gone now grace i =
    retire_all-IsKept t gone (expired_in now grace (detached_in t.heap t.map)) i

forget-IsKept :
    (t : Sessions) (gone : List ℕ) (id : ℕ) → IsKept t gone → IsKept (forget t id) (id ∷ gone)
unfolding forget has
forget-IsKept t gone id i = record {
  fresh = i.fresh;
  held = λ j h. i.held j (ground (arith, has-without_id id j t.map));
  listed = λ j k. ground (arith, has-without_id id j t.map, i.listed j k);
}

detach-IsKept :
    (t : Sessions) (gone : List ℕ) (now id epoch : ℕ)
    → IsKept t gone
    → IsKept (detach now t id epoch) gone
unfolding detach
detach-IsKept t gone now id epoch i = elim (Bool-cases (has id t.map)) [
  | inr e ↦ subst (λ x. IsKept x gone) (ground arith) i
  | inl e ↦
      subst (λ x. IsKept x gone) (ground arith) (altered-IsKept t gone id (detach_at now epoch) i)
]

freed-IsKept :
    (t : Sessions) (gone : List ℕ) (id : ℕ)
    → has id t.map ≡ false
    → is_key id t.heap ≡ true
    → IsKept t gone
    → IsKept (record t { heap = erase id t.heap }) gone
freed-IsKept t gone id out here i =
    let kept : (j : ℕ) → is_key j (erase id t.heap) ≡ true → is_key j t.heap ≡ true = λ j k.
      elim (Bool-cases (j == id)) [
        | inl e ↦
            let same : j ≡ id = ground arith in subst (λ x. is_key x t.heap ≡ true) (sym same) here
        | inr e ↦ ground (arith, lookup-erase_ne id j t.heap)
      ] in
    record {
      fresh = λ j k. i.fresh j (kept j k);
      held = λ j h. elim (Bool-cases (j == id)) [
        | inl e ↦
            let same : j ≡ id = ground arith in
            absurd (ground (arith, subst (λ x. has x t.map ≡ true) same h))
        | inr e ↦ ground (arith, lookup-erase_ne id j t.heap, i.held j h)
      ];
      listed = λ j k. i.listed j (kept j k);
    }

abbrev pub IsSound : World → Type 0
IsSound w = IsKept w.table w.forgotten

step-IsSound : (w u : World) (a : Action) → step w a ≡ some u → IsSound w → IsSound u
unfolding step attach let_go
step-IsSound w u (Action.creates token) e i =
    subst IsSound (some-injective _ _ e) (create-IsKept w.table w.forgotten token i)
step-IsSound w u (Action.resumes id token) e i =
    let ((t, epoch), did, done) = >>=-eq-some (resume w.table id token) _ e in
    let (s, r, _) = resume-IsResumed w.table t id token epoch did in
    subst IsSound (some-injective _ _ done) (resume-IsKept w.table t w.forgotten id token s r i)
step-IsSound w u (Action.forgets id) e i =
    subst IsSound (some-injective _ _ e) (forget-IsKept w.table w.forgotten id i)
step-IsSound w u (Action.attaches id) e i =
    subst IsSound (some-injective _ _ e) (altered-IsKept w.table w.forgotten id hold i)
step-IsSound w u (Action.holds id) e i =
    let (s, at, done) = >>=-eq-some (lookup id w.table.heap) _ e in
    subst IsSound (some-injective _ _ done) (put-IsKept w.table w.forgotten id (hold s) s at i)
step-IsSound w u (Action.lets_go id) e i =
    let (s, at, rest) = >>=-eq-some (lookup id w.table.heap) _ e in
    let (s', did, done) = >>=-eq-some (let_go s) _ rest in
    subst IsSound (some-injective _ _ done) (put-IsKept w.table w.forgotten id s' s at i)
step-IsSound w u (Action.counts id a) e i =
    let (s, at, done) = >>=-eq-some (lookup id w.table.heap) _ e in
    subst IsSound (some-injective _ _ done)
      (put-IsKept w.table w.forgotten id (record s { attachment = a }) s at i)
step-IsSound w u (Action.detaches now id epoch) e i =
    subst IsSound (some-injective _ _ e) (detach-IsKept w.table w.forgotten now id epoch i)
step-IsSound w u (Action.reaps now grace) e i =
    subst IsSound (some-injective _ _ e) (reap-IsKept w.table w.forgotten now grace i)
step-IsSound w u (Action.frees id) e i =
    let (s, at, rest) = >>=-eq-some (lookup id w.table.heap) _ e in
    let out : has id w.table.map ≡ false = ground arith in
    subst IsSound (ground arith) (freed-IsKept w.table w.forgotten id out (ground arith) i)

start-IsSound : IsSound start
unfolding start has
start-IsSound = record {
  fresh = λ id k. ground arith;
  held = λ id h. ground arith;
  listed = λ id k. ground arith;
}

run_from : (w u : World) (acts : List Action) → run w acts ≡ some u → IsSound w → IsSound u
unfolding run
run_from w u [] e i = subst IsSound (some-injective _ _ e) i
run_from w u (a ∷ acts) e i =
    let (m, did, rest) = >>=-eq-some (step w a) _ e in
    run_from m u acts rest (step-IsSound w m a did i)

pub run-IsSound : (w : World) (acts : List Action) → run start acts ≡ some w → IsSound w
run-IsSound w acts e = run_from start w acts e start-IsSound
