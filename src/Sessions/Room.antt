-- ===== src/Sessions/Room.antt =====
-- crates/server/src/session.rs: the room that a new session makes.
mod Sorted
use jackalopefs.Common.{
  ℕ, zero, suc, ◌+◌, ◌-◌, ◌≤◌, ◌<◌, ◌≡◌, ◌≢◌, inl, inr, refl, ap, sym, subst, Bool, Bool-cases,
  true, false, not, ◌&&◌, ◌||◌, Option, Option-cases, none, some, List, [], ◌∷◌, arith, ◌==◌, leb,
  leb→le, ltb, if◌then◌else◌, ◌>>=◌, length, count_if, filter_if, lookup, insert, lookup-insert,
}
use jackalopefs.Session.State.{SessionState}
use jackalopefs.Sessions.Table.{
  Sessions, has, without_id, insert_id, retire, retire_all, detached_at, detached_in, sort_by_at,
  take_ids, surplus, new_session, create, max_detached_sessions,
}
use jackalopefs.Sessions.Kept.{has-without_id, has-insert_id, retire_all-same}
use Sorted.{
  listed, AreOf, sort_by_at-IsSorted, AreOf-sort_by_at, listed-sort_by_at, count_if-sort_by_at,
  length-sort_by_at, take_ids-le, take_ids-listed, count_if-take_ids,
}

abbrev is_detached : List (ℕ × SessionState) → ℕ → Bool
is_detached heap id = elim (detached_at heap id) [ none ↦ false | some at ↦ true ]

detached_in-AreOf :
    (heap : List (ℕ × SessionState)) (ids : List ℕ)
    → AreOf (detached_at heap) (detached_in heap ids)
unfolding detached_in
detached_in-AreOf heap [] = tt
detached_in-AreOf heap (id ∷ ids) = elim (Option-cases (detached_at heap id)) [
  | inl e ↦ ground (arith, detached_in-AreOf heap ids)
  | inr (at, e) ↦ ground (arith, detached_in-AreOf heap ids)
]

detached_in-listed :
    (heap : List (ℕ × SessionState)) (ids : List ℕ) (k : ℕ)
    → listed k (detached_in heap ids) ≡ (has k ids && is_detached heap k)
unfolding detached_in listed has
detached_in-listed heap [] k = refl
detached_in-listed heap (id ∷ ids) k = elim (Bool-cases (k == id)) [
  | inl e ↦
      let same : is_detached heap k ≡ is_detached heap id = ap (is_detached heap) (ground arith) in
      ground (arith, detached_in-listed heap ids k)
  | inr e ↦ ground (arith, detached_in-listed heap ids k)
]

count_if-detached_in :
    (heap : List (ℕ × SessionState)) (p : ℕ → Bool) (ids : List ℕ)
    → count_if (λ e. p e.0) (detached_in heap ids) ≡ count_if (λ j. is_detached heap j && p j) ids
unfolding detached_in
count_if-detached_in heap p [] = refl
count_if-detached_in heap p (id ∷ ids) = ground (arith, count_if-detached_in heap p ids)

length-detached_in :
    (heap : List (ℕ × SessionState)) (ids : List ℕ)
    → length (detached_in heap ids) ≡ count_if (is_detached heap) ids
unfolding detached_in
length-detached_in heap [] = refl
length-detached_in heap (id ∷ ids) = ground (arith, length-detached_in heap ids)

count_if-without_id :
    (p q : ℕ → Bool) (id : ℕ) (ids : List ℕ)
    → ((j : ℕ) → j ≢ id → p j ≡ true → q j ≡ true)
    → count_if p (without_id id ids) ≤ count_if q ids
unfolding without_id
count_if-without_id p q id [] h = omega arith
count_if-without_id p q id (i ∷ ids) h = ground (arith, h i, count_if-without_id p q id ids h)

count_if_mono :
    (p q : ℕ → Bool) (ids : List ℕ)
    → ((j : ℕ) → has j ids ≡ true → p j ≡ true → q j ≡ true)
    → count_if p ids ≤ count_if q ids
unfolding has
count_if_mono p q [] h = omega arith
count_if_mono p q (i ∷ ids) h =
    ground (arith, h i, count_if_mono p q ids (λ j x y. h j (ground arith) y))

pub has-retire_all :
    (t : Sessions) (ids : List ℕ) (j : ℕ)
    → has j (retire_all t ids).map ≡ (has j t.map && not (has j ids))
unfolding retire_all retire has
has-retire_all t [] j = ground arith
has-retire_all t (id ∷ ids) j = elim (Bool-cases (j == id)) [
  | inl e ↦
      let same : has j t.map ≡ has id t.map = ap (λ x. has x t.map) (ground arith) in
      ground (arith, has-retire_all (retire t id) ids j, has-without_id id j t.map)
  | inr e ↦ ground (arith, has-retire_all (retire t id) ids j, has-without_id id j t.map)
]

count_if-retire :
    (t : Sessions) (q : ℕ → Bool) (id : ℕ)
    → count_if (λ j. j == id || q j) (retire t id).map ≤ count_if q t.map
unfolding retire
count_if-retire t q id = elim (Bool-cases (has id t.map)) [
  | inl e ↦
      ground (arith, count_if-without_id (λ j. j == id || q j) q id t.map (λ j x y. ground arith))
  | inr e ↦ ground (
    arith,
    count_if_mono (λ j. j == id || q j) q t.map
        (λ j x y. elim (Bool-cases (j == id)) [
          | inl z ↦
              let same : has id t.map ≡ has j t.map = ap (λ v. has v t.map) (ground arith) in
              ground arith
          | inr z ↦ ground arith
        ]),
  )
]

count_if-retire_all :
    (t : Sessions) (p q : ℕ → Bool) (ids : List ℕ)
    → ((j : ℕ) → has j ids ≡ false → p j ≡ true → q j ≡ true)
    → count_if p (retire_all t ids).map ≤ count_if q t.map
unfolding retire_all has
count_if-retire_all t p q [] h = count_if_mono p q t.map (λ j x y. h j refl y)
count_if-retire_all t p q (id ∷ ids) h =
    let r : ℕ → Bool = λ j. j == id || q j in
    let rest : count_if p (retire_all (retire t id) ids).map ≤ count_if r (retire t id).map =
      count_if-retire_all (retire t id) p r ids (λ j x y. ground (arith, h j)) in
    omega (arith, rest, count_if-retire t q id)

-- Fewer than 64 detached sessions are left.
left_detached :
    (t : Sessions)
    → count_if (is_detached t.heap) (retire_all t (surplus t)).map < max_detached_sessions
unfolding surplus has
left_detached t =
    let ds = detached_in t.heap t.map in
    let n = length ds in
    elim (Bool-cases (leb max_detached_sessions n)) [
      | inr few ↦
          let fewer : count_if (is_detached t.heap) (retire_all t (surplus t)).map
              ≤ count_if (is_detached t.heap) t.map =
            count_if-retire_all t (is_detached t.heap) (is_detached t.heap) (surplus t)
              (λ j x y. y) in
          ground (arith, fewer, length-detached_in t.heap t.map)
      | inl many ↦
          let k = n + 1 - max_detached_sessions in
          let taken = take_ids k (sort_by_at ds) in
          let same : surplus t ≡ taken = ground arith in
          let kept = λ (j : ℕ). not (has j taken) in
          let fewer : count_if (is_detached t.heap) (retire_all t taken).map
              ≤ count_if (λ j. is_detached t.heap j && kept j) t.map =
            count_if-retire_all t (is_detached t.heap) (λ j. is_detached t.heap j && kept j) taken
              (λ j x y. ground arith) in
          let took : count_if (λ (e : ℕ × ℕ). kept e.0) (sort_by_at ds) + k
              ≤ length (sort_by_at ds) =
            count_if-take_ids k taken (sort_by_at ds) (omega (arith, length-sort_by_at ds))
              (λ j x. x) in
          subst (λ x. count_if (is_detached t.heap) (retire_all t x).map < max_detached_sessions)
            (sym same)
            (omega (
              arith,
              fewer,
              took,
              length-sort_by_at ds,
              count_if-sort_by_at (λ e. kept e.0) ds,
              count_if-detached_in t.heap kept t.map,
              leb→le max_detached_sessions n many,
            ))
    ]

-- Only a detached session is retired, and none was detached before it that is not.
surplus-oldest :
    (t : Sessions) (j k b : ℕ)
    → has j (surplus t) ≡ true
    → (a : ℕ) × (detached_at t.heap j ≡ some a)
      × (has k t.map ≡ true → has k (surplus t) ≡ false → detached_at t.heap k ≡ some b → a ≤ b)
unfolding surplus has
surplus-oldest t j k b h =
    let ds = detached_in t.heap t.map in
    let n = length ds + 1 - max_detached_sessions in
    let es = sort_by_at ds in
    elim (Bool-cases (leb max_detached_sessions (length ds))) [
      | inr few ↦ absurd (ground arith)
      | inl many ↦
          let same : surplus t ≡ take_ids n es = ground arith in
          let taken : has j (take_ids n es) ≡ true = subst (λ x. has j x ≡ true) same h in
          elim (Option-cases (detached_at t.heap j)) [
            | inl never ↦ absurd (
                ground (
                  arith,
                  take_ids-listed n j es taken,
                  listed-sort_by_at j ds,
                  detached_in-listed t.heap t.map j,
                ))
            | inr (a, at) ↦ (
              a,
              at,
              λ held left kb.
                  take_ids-le (detached_at t.heap) n j k a b es
                    (AreOf-sort_by_at (detached_at t.heap) ds (detached_in-AreOf t.heap t.map))
                    (sort_by_at-IsSorted ds) taken (subst (λ x. has k x ≡ false) same left)
                    (ground (arith, listed-sort_by_at k ds, detached_in-listed t.heap t.map k)) at
                    kb,
            )
          ]
    ]

detached_at-new :
    (id k token : ℕ) (heap : List (ℕ × SessionState))
    → detached_at (insert id (new_session id token) heap) k
      ≡ (if k == id then none else detached_at heap k)
unfolding detached_at new_session
detached_at-new id k token heap = ground (arith, lookup-insert id k (new_session id token) heap)

-- The session that is new is not detached.
count_if-new :
    (heap old : List (ℕ × SessionState)) (id token : ℕ) (ids : List ℕ)
    → heap ≡ old
    → count_if (is_detached (insert id (new_session id token) heap)) (insert_id id ids)
      ≤ count_if (is_detached old) ids
unfolding insert_id
count_if-new heap old id token ids same =
    let now = is_detached (insert id (new_session id token) heap) in
    let others : count_if now (without_id id ids) ≤ count_if (is_detached old) ids =
      count_if-without_id now (is_detached old) id ids (λ j ne x.
        subst (λ m. is_detached m j ≡ true) same
          (ground (arith, detached_at-new id j token heap))) in
    ground (arith, detached_at-new id id token heap, others)

-- A new session is in the table, and leaves fewer than 64 sessions detached in it; every session that
-- is not in it any more was detached, and no later than any detached one that is left.
pub create_lem :
    (t : Sessions) (token : ℕ)
    → let (u, id) = create t token in
      (has id u.map ≡ true)
      × (length (detached_in u.heap u.map) < max_detached_sessions)
      × ((j k b : ℕ)
          → has j t.map ≡ true
          → has j u.map ≡ false
          → (a : ℕ) × (detached_at t.heap j ≡ some a)
            × (has k u.map ≡ true → detached_at u.heap k ≡ some b → a ≤ b))
unfolding create
create_lem t token =
    let left = retire_all t (surplus t) in
    let id = suc t.next_id in
    let heap = insert id (new_session id token) left.heap in
    let same : left.heap ≡ t.heap = (retire_all-same t (surplus t)).0 in
    let at = λ (k : ℕ). detached_at-new id k token left.heap in
    let among = λ (k : ℕ). has-insert_id id k left.map in
    let kept = λ (k : ℕ). has-retire_all t (surplus t) k in
    (
      ground (arith, among id),
      omega (
        arith,
        length-detached_in heap (insert_id id left.map),
        count_if-new left.heap t.heap id token left.map same,
        left_detached t,
      ),
      λ j k b held gone.
          let (a, was, oldest) = surplus-oldest t j k b (ground (arith, among j, kept j)) in
          (
            a,
            was,
            λ here kb.
                let before : detached_at left.heap k ≡ some b = ground (arith, at k) in
                oldest (ground (arith, among k, kept k, at k))
                  (ground (arith, among k, kept k, at k))
                  (subst (λ x. detached_at x k ≡ some b) same before),
          ),
    )
