-- ===== src/Watch/Counted/Placed.antt =====
-- crates/server/src/watch.rs: that making room and recording a watch keep the table counted.
use jackalopefs.Common.{
  ℕ, zero, suc, ◌+◌, ◌-◌, ◌≡◌, ◌≢◌, inl, inr, refl, sym, subst, ◌∙◌, Bool, Bool-cases, true, false,
  Option-cases, none, List, [], ◌∷◌, arith, leb, if◌then◌else◌, lookup, insert, is_key, IsMap,
  lookup-insert, insert-IsMap,
}
use jackalopefs.Proto.Path.{split_last}
use jackalopefs.Proto.Message.{FilePath}
use jackalopefs.Nodes.Names.{same_names}
use jackalopefs.Watch.Tree.{State, Node}
use jackalopefs.Watch.Table.{Answer, Table, rm, drop_at}
use jackalopefs.Watch.Ops.{
  budget_at, new_node, drop_leaves, leaves_of, sort_leaves, evict_more, evict, limited, put_new,
  place, add, put_unwatchable, settle_install, is_full, install, is_it, unwatchable_retry,
}
use jackalopefs.Watch.Weights.{is_watch, one_watch, weigh, weigh_node}
use jackalopefs.Watch.Counted.Turns.{evict_more_turn}
use jackalopefs.Watch.Counted.Absent.{IsAbsent, evict-IsAbsent}
use jackalopefs.Watch.Counted.{IsExact, IsExact-as}
use jackalopefs.Watch.Counted.Moves.{drop_at-IsExact, put-IsExact, reroot-IsExact}

-- What is counted is the same in both.
pub record IsLike (t u : Table) : Type 0 where
  pub root : u.root ≡ t.root
  pub by_wd : u.by_wd ≡ t.by_wd
  pub watched : u.watched ≡ t.watched
  pub underflow : u.underflow ≡ t.underflow

pub like-IsExact : (t u : Table) (x : ℕ → ℕ) (n : ℕ) → IsLike t u → IsExact t x n → IsExact u x n
like-IsExact t u x n l c = record {
  ids = subst IsMap (sym l.by_wd) c.ids;
  rooted = subst (λ (r : Node). one_watch r.state ≡ 1) (sym l.root) c.rooted;
  keys = λ w.
      subst (λ m. (if is_key w m then 1 else 0) ≡ weigh_node (is_watch w) u.root + x w)
        (sym l.by_wd)
        (subst (λ r. (if is_key w t.by_wd then 1 else 0) ≡ weigh_node (is_watch w) r + x w)
          (sym l.root) (c.keys w));
  count =
      subst (λ r. suc u.watched ≡ weigh_node one_watch r + n) (sym l.root)
        (omega (arith, l.watched, c.count));
  sound = l.underflow ∙ c.sound;
}

pub budget_at-IsLike : (now : ℕ) (t : Table) → IsLike t (budget_at now t).0
unfolding budget_at
budget_at-IsLike now t = record {
  root = ground arith;
  by_wd = ground arith;
  watched = ground arith;
  underflow = ground arith;
}

pub is_it-IsLike : (dir wd : ℕ) (t : Table) → IsLike t (is_it dir wd t).0
unfolding is_it add rm
is_it-IsLike dir wd t = record {
  root = ground arith;
  by_wd = ground arith;
  watched = ground arith;
  underflow = ground arith;
}

drop_leaves-IsExact :
    (k : ℕ) (ls : List (ℕ × FilePath)) (t : Table) (x : ℕ → ℕ) (n : ℕ)
    → IsExact t x n
    → IsExact (drop_leaves k ls t) x n
unfolding drop_leaves
drop_leaves-IsExact zero ls t x n c = c
drop_leaves-IsExact (suc k) [] t x n c = c
drop_leaves-IsExact (suc k) ((u, names) ∷ ls) t x n c =
    drop_leaves-IsExact k ls (drop_at true names t) x n (drop_at-IsExact true names t x n c)

evict_more-IsExact :
    (fuel left : ℕ) (keep : FilePath) (t : Table) (x : ℕ → ℕ) (n : ℕ)
    → IsExact t x n
    → IsExact (evict_more fuel left keep t) x n
evict_more-IsExact zero left keep t x n c = unfold evict_more in c
evict_more-IsExact (suc fuel) left keep t x n c =
    let leaves = sort_leaves (leaves_of t.stamps keep [] t.root.children) in
    elim (evict_more_turn fuel left keep t) [
      | inl e ↦ subst (λ u. IsExact u x n) (sym e) c
      | inr (k, e) ↦
          subst (λ u. IsExact u x n) (sym e)
            (evict_more-IsExact fuel (left - k) keep (drop_leaves k leaves t) x n
              (drop_leaves-IsExact k leaves t x n c))
    ]

pub evict-IsExact :
    (keep : FilePath) (now : ℕ) (t : Table) (x : ℕ → ℕ) (n : ℕ)
    → IsExact t x n
    → IsExact (evict keep now t) x n
unfolding evict
evict-IsExact keep now t x n c =
    let u = (budget_at now t).0 in
    let c1 = like-IsExact t u x n (budget_at-IsLike now t) c in
    evict_more-IsExact _ _ keep (record u { round = suc u.round }) x n
      (like-IsExact u (record u { round = suc u.round }) x n
        (record { root = refl; by_wd = refl; watched = refl; underflow = refl }) c1)

put_new-IsExact :
    (path : FilePath) (wd : ℕ) (t : Table) (x : ℕ → ℕ) (n : ℕ)
    → split_last path ≢ none
    → lookup wd t.by_wd ≡ none
    → IsExact t x n
    → IsExact (put_new path wd t) x n
unfolding put_new new_node weigh_node weigh is_watch one_watch
put_new-IsExact path wd t x n ne new c =
    let u =
      (new_node (State.watched wd) t.round
        (record t { by_wd = insert wd path t.by_wd; watched = suc t.watched })) in
    put-IsExact path u.1 u.0 x n ne (record {
      ids = insert-IsMap wd path t.by_wd c.ids;
      rooted = c.rooted;
      keys = λ w. ground (arith, c.keys w, c.keys wd, lookup-insert wd w path t.by_wd);
      count = omega (arith, c.count);
      sound = c.sound;
    })

-- A descriptor that is new is recorded, once there is room.
place_new-IsExact :
    (path : FilePath) (wd now : ℕ) (full : Bool) (u : Table) (x : ℕ → ℕ) (n : ℕ)
    → split_last path ≢ none
    → IsAbsent wd u
    → IsExact u x n
    → IsExact (put_new path wd (if full then evict path now u else u)) x n
place_new-IsExact path wd now true u x n ne a c =
    put_new-IsExact path wd (evict path now u) x n ne (evict-IsAbsent wd path now u a)
      (evict-IsExact path now u x n c)
place_new-IsExact path wd now false u x n ne a c = put_new-IsExact path wd u x n ne a c

pub place-IsExact :
    (path : FilePath) (wd now : ℕ) (t : Table) (x : ℕ → ℕ) (n : ℕ)
    → split_last path ≢ none
    → IsExact t x n
    → IsExact (place path wd now t).0 x n
unfolding place
place-IsExact path wd now t x n ne c = elim (Option-cases (lookup wd t.by_wd)) [
  | inl e ↦
      let u = (budget_at now t).0 in
      let like = budget_at-IsLike now t in
      subst (λ v. IsExact v x n) (ground arith)
        (place_new-IsExact path wd now (leb (budget_at now t).1 u.watched) u x n ne
          (subst (λ m. lookup wd m ≡ none) (sym like.by_wd) e) (like-IsExact t u x n like c))
  | inr (old, e) ↦ elim (Bool-cases (same_names old path)) [
    | inl same ↦ subst (λ v. IsExact v x n) (ground arith) c
    | inr other ↦ subst (λ v. IsExact v x n) (ground arith) (reroot-IsExact old path t x n ne c)
  ]
]

put_unwatchable-IsExact :
    (path : FilePath) (now : ℕ) (t : Table) (x : ℕ → ℕ) (n : ℕ)
    → split_last path ≢ none
    → IsExact t x n
    → IsExact (put_unwatchable path now t) x n
unfolding put_unwatchable new_node weigh_node weigh is_watch one_watch
put_unwatchable-IsExact path now t x n ne c =
    let u = new_node (State.unwatchable (now + unwatchable_retry)) t.round t in
    put-IsExact path u.1 u.0 x n ne (
      IsExact-as (u.0) x _ n _ (λ w. omega arith) (omega arith)
        (like-IsExact t (u.0) x n
          (record { root = refl; by_wd = refl; watched = refl; underflow = refl }) c))

settle_install-IsExact :
    (path : FilePath) (now : ℕ) (t : Table) (a : Answer) (x : ℕ → ℕ) (n : ℕ)
    → split_last path ≢ none
    → IsExact t x n
    → IsExact (settle_install path now (t, a)).0 x n
unfolding settle_install
settle_install-IsExact path now t (Answer.ok wd) x n ne c = place-IsExact path wd now t x n ne c
settle_install-IsExact path now t (Answer.err e) x n ne c =
    put_unwatchable-IsExact path now t x n ne c

-- Calls of the system change nothing that is counted.
pub called-IsExact :
    (t : Table) (calls : ℕ) (x : ℕ → ℕ) (n : ℕ)
    → IsExact t x n
    → IsExact (record t { calls = calls }) x n
called-IsExact t calls x n c = record {
  ids = c.ids;
  rooted = c.rooted;
  keys = c.keys;
  count = c.count;
  sound = c.sound;
}

pub install-IsExact :
    (path : FilePath) (dir now : ℕ) (t : Table) (x : ℕ → ℕ) (n : ℕ)
    → split_last path ≢ none
    → IsExact t x n
    → IsExact (install path dir now t).0 x n
unfolding install
install-IsExact path dir now t x n ne c =
    let (u, added) = add t dir in
    let cu : IsExact u x n = unfold add in (called-IsExact t (suc t.calls) x n c) in
    let l = limited now u in
    let cl : IsExact l x n =
      unfold limited in
      (record {
        ids = cu.ids;
        rooted = cu.rooted;
        keys = cu.keys;
        count = cu.count;
        sound = cu.sound;
      }) in
    let v = evict path now l in
    let (z, again) = add v dir in
    let cz : IsExact z x n =
      unfold add in (called-IsExact v (suc v.calls) x n (evict-IsExact path now l x n cl)) in
    elim (Bool-cases (is_full u added)) [
      | inl full ↦
          subst (λ y. IsExact y x n) (ground arith)
            (settle_install-IsExact path now z again x n ne cz)
      | inr fits ↦
          subst (λ y. IsExact y x n) (ground arith)
            (settle_install-IsExact path now u added x n ne cu)
    ]

pub is_it-IsExact :
    (dir wd : ℕ) (t : Table) (x : ℕ → ℕ) (n : ℕ) → IsExact t x n → IsExact (is_it dir wd t).0 x n
is_it-IsExact dir wd t x n c = like-IsExact t (is_it dir wd t).0 x n (is_it-IsLike dir wd t) c
