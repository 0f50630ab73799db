-- ===== src/Watch/Counted/Armed.antt =====
-- crates/server/src/watch.rs: that what requests ask for keeps the table counted.
use jackalopefs.Common.{
  ℕ, zero, suc, ◌≡◌, ◌≢◌, ◌⊎◌, inl, inr, refl, subst, Bool-cases, true, Option, Option-cases, none,
  List, [], ◌∷◌, ◌++◌, arith, ◌==◌, ltb,
}
use jackalopefs.Proto.Path.{split_last}
use jackalopefs.Proto.Message.{FilePath}
use jackalopefs.Watch.Tree.{State, Node, node_at}
use jackalopefs.Watch.Table.{Answer, Table, drop_at}
use jackalopefs.Watch.Ops.{add, open_dir, open_child, install, verify}
use jackalopefs.Watch.Arm.{
  hold, let_go, Touched, done, missing, touch, deepest_watched, take_names, skip_names, extend_from,
  extend, arm,
}
use jackalopefs.Watch.Counted.{IsExact}
use jackalopefs.Watch.Counted.Moves.{drop_at-IsExact}
use jackalopefs.Watch.Counted.Placed.{
  IsLike, like-IsExact, called-IsExact, place-IsExact, install-IsExact,
}

split_last-cons : (name : List ℕ) (names : FilePath) → split_last (name ∷ names) ≢ none
unfolding split_last
split_last-cons name [] e = ground arith
split_last-cons name (x ∷ names) e = ground (arith, split_last-cons x names)

pub split_last-snoc : (path : FilePath) (name : List ℕ) → split_last (path ++ name ∷ []) ≢ none
split_last-snoc [] name = split_last-cons name []
split_last-snoc (x ∷ path) name = split_last-cons x (path ++ name ∷ [])

pub Answer-cases : (a : Answer) → ((d : ℕ) × (a ≡ Answer.ok d)) ⊎ ((e : ℕ) × (a ≡ Answer.err e))
Answer-cases (Answer.ok d) = inl (d, refl)
Answer-cases (Answer.err e) = inr (e, refl)

State-cases :
    (s : State) → ((w : ℕ) × (s ≡ State.watched w)) ⊎ ((r : ℕ) × (s ≡ State.unwatchable r))
State-cases (State.watched w) = inl (w, refl)
State-cases (State.unwatchable r) = inr (r, refl)

-- A directory that was opened is the one the table has, or takes its place.
verify-IsExact :
    (path : FilePath) (dir now : ℕ) (t : Table) (x : ℕ → ℕ) (n : ℕ)
    → split_last path ≢ none
    → IsExact t x n
    → IsExact (verify path dir now t).0 x n
unfolding verify add
verify-IsExact path dir now t x n ne c =
    let u = (add t dir).0 in
    let cu : IsExact u x n = called-IsExact t (suc t.calls) x n c in
    elim (Option-cases (node_at t.root path)) [
      | inl e ↦ subst (λ v. IsExact v x n) (ground arith) c
      | inr (d, e) ↦ elim (State-cases d.state) [
        | inr (r, se) ↦ subst (λ v. IsExact v x n) (ground arith) c
        | inl (wd, se) ↦ elim (Answer-cases (t.marks.add t.calls dir)) [
          | inr (errno, ae) ↦ subst (λ v. IsExact v x n) (ground arith) cu
          | inl (found, ae) ↦ elim (Bool-cases (found == wd)) [
            | inl same ↦ subst (λ v. IsExact v x n) (ground arith) cu
            | inr other ↦
                subst (λ v. IsExact v x n) (ground arith)
                  (place-IsExact path found now (drop_at true path u) x n ne
                    (drop_at-IsExact true path u x n cu))
          ]
        ]
      ]
    ]

extend_from-IsExact :
    (path : FilePath) (dir : ℕ) (names : FilePath) (now : ℕ) (t : Table) (x : ℕ → ℕ) (n : ℕ)
    → IsExact t x n
    → IsExact (extend_from path dir names now t) x n
unfolding extend_from open_child
extend_from-IsExact path dir [] now t x n c = c
extend_from-IsExact path dir (name ∷ names) now t x n c =
    let here = path ++ name ∷ [] in
    let u = (open_child t dir name).0 in
    let cu : IsExact u x n = called-IsExact t (suc t.calls) x n c in
    elim (Answer-cases (t.marks.open_child t.calls dir name)) [
      | inr (errno, ae) ↦ subst (λ v. IsExact v x n) (ground arith) cu
      | inl (d, ae) ↦
          let v = (install here d now u).0 in
          let cv = install-IsExact here d now u x n (split_last-snoc path name) cu in
          elim (Bool-cases (install here d now u).1) [
            | inr off ↦ subst (λ y. IsExact y x n) (ground arith) cv
            | inl on ↦
                subst (λ y. IsExact y x n) (ground arith)
                  (extend_from-IsExact here d names now v x n cv)
          ]
    ]

extend-IsExact :
    (names : FilePath) (depth now : ℕ) (t : Table) (x : ℕ → ℕ) (n : ℕ)
    → (ltb 0 depth ≡ true → split_last (take_names depth names) ≢ none)
    → IsExact t x n
    → IsExact (extend names depth now t) x n
unfolding extend open_dir
extend-IsExact names depth now t x n ne c =
    let prefix = take_names depth names in
    let below = skip_names depth names in
    let u = (open_dir t prefix).0 in
    let cu : IsExact u x n = called-IsExact t (suc t.calls) x n c in
    elim (Answer-cases (t.marks.open_dir t.calls prefix)) [
      | inr (errno, ae) ↦ subst (λ v. IsExact v x n) (ground arith) cu
      | inl (d, ae) ↦ elim (Bool-cases (ltb 0 depth)) [
        | inr shallow ↦
            subst (λ v. IsExact v x n) (ground arith)
              (extend_from-IsExact prefix d below now u x n cu)
        | inl deep ↦
            let v = (verify prefix d now u).0 in
            let cv = verify-IsExact prefix d now u x n (ne deep) cu in
            elim (Bool-cases (verify prefix d now u).1) [
              | inr off ↦ subst (λ y. IsExact y x n) (ground arith) cv
              | inl on ↦
                  subst (λ y. IsExact y x n) (ground arith)
                    (extend_from-IsExact prefix d below now v x n cv)
            ]
      ]
    ]

pub hold-IsLike : (m : ℕ) (t : Table) → IsLike t (hold m t)
unfolding hold
hold-IsLike m t = record {
  root = ground arith;
  by_wd = ground arith;
  watched = ground arith;
  underflow = ground arith;
}

pub let_go-IsLike : (m : ℕ) (t : Table) → IsLike t (let_go m t)
unfolding let_go
let_go-IsLike m t = record {
  root = ground arith;
  by_wd = ground arith;
  watched = ground arith;
  underflow = ground arith;
}

pub touch-IsLike : (dir : FilePath) (now : ℕ) (t : Table) → IsLike t (touch dir now t).0
unfolding touch hold
touch-IsLike dir now t = record {
  root = ground arith;
  by_wd = ground arith;
  watched = ground arith;
  underflow = ground arith;
}

take_names_some :
    (k : ℕ) (name : List ℕ) (names : FilePath)
    → ltb 0 k ≡ true
    → split_last (take_names k (name ∷ names)) ≢ none
unfolding take_names
take_names_some zero name names h = absurd (ground arith)
take_names_some (suc k) name names h = split_last-cons name (take_names k names)

-- The deepest directory watched is on the path.
deepest_on_path :
    (n : Node) (dir : FilePath)
    → ltb 0 (deepest_watched n dir).1 ≡ true
    → split_last (take_names (deepest_watched n dir).1 dir) ≢ none
deepest_on_path n [] h = unfold deepest_watched in (absurd (ground arith))
deepest_on_path n (name ∷ names) h =
    take_names_some (deepest_watched n (name ∷ names)).1 name names h

pub Touched-cases : (f : Touched) → ((h : Option ℕ) × (f ≡ done h)) ⊎ (f ≡ missing)
Touched-cases (done h) = inl (h, refl)
Touched-cases missing = inr refl

pub arm-IsExact :
    (dir : FilePath) (now : ℕ) (t : Table) (x : ℕ → ℕ) (n : ℕ)
    → IsExact t x n
    → IsExact (arm dir now t).0 x n
unfolding arm
arm-IsExact dir now t x n c =
    let u = (touch dir now t).0 in
    let cu = like-IsExact t u x n (touch-IsLike dir now t) c in
    elim (Touched-cases (touch dir now t).1) [
      | inl (h, e) ↦ subst (λ v. IsExact v x n) (ground arith) cu
      | inr e ↦
          let v = extend dir (deepest_watched u.root dir).1 now u in
          let m = (deepest_watched v.root dir).0.mark in
          subst (λ y. IsExact y x n) (ground arith)
            (like-IsExact v (hold m v) x n (hold-IsLike m v) (
              extend-IsExact dir (deepest_watched u.root dir).1 now u x n
                (deepest_on_path u.root dir) cu))
    ]
