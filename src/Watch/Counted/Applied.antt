-- ===== src/Watch/Counted/Applied.antt =====
-- crates/server/src/watch.rs: that what inotify reports keeps the table counted while it lives.
use jackalopefs.Common.{
  ℕ, ◌+◌, ◌≡◌, ◌≢◌, inl, inr, sym, subst, Bool, Bool-cases, true, false, Option-cases, none, some,
  arith, if◌then◌else◌, lookup, insert, erase,
}
use jackalopefs.Proto.Path.{split_last}
use jackalopefs.Proto.Message.{FilePath}
use jackalopefs.Events.Window.{EventItem}
use jackalopefs.Events.Origins.{intersects, in_moved_from, in_moved_to, in_delete}
use jackalopefs.Watch.Tree.{Node, detach}
use jackalopefs.Watch.Table.{Table, rm, drop_tree, rekey, put, drop_at}
use jackalopefs.Watch.Ops.{add, open_dir, is_it, still_there}
use jackalopefs.Watch.Apply.{
  RawEvent, Moving, push, report, moved_from, moved_to, deleted, apply_dir,
}
use jackalopefs.Watch.Weights.{is_watch, one_watch, weigh_node}
use jackalopefs.Watch.Counted.{IsExact, IsExact-as, drop_tree-IsExact}
use jackalopefs.Watch.Counted.Moves.{detach-IsExact, drop_at-IsExact, rekey-IsExact, put-IsExact}
use jackalopefs.Watch.Counted.Placed.{IsLike, like-IsExact}
use jackalopefs.Watch.Counted.Moving.{
  weigh_moving, weigh_moving-insert, weigh_moving-erase, weigh_moving-erase-none, IsWith,
}

unfoldable pub IsPair : Table × Moving → Type 0
IsPair (t, m) = IsWith t m

still_there-IsLike : (path : FilePath) (t : Table) → IsLike t (still_there path t).0
unfolding still_there open_dir is_it add rm
still_there-IsLike path t = record {
  root = ground arith;
  by_wd = ground arith;
  watched = ground arith;
  underflow = ground arith;
}

pub report-IsLike : (e : RawEvent) (t : Table) → IsLike t (report e t).0
unfolding report push
report-IsLike e t = record {
  root = ground arith;
  by_wd = ground arith;
  watched = ground arith;
  underflow = ground arith;
}

still_there-dead : (path : FilePath) (t : Table) → (still_there path t).0.dead ≡ t.dead
unfolding still_there open_dir is_it add rm
still_there-dead path t = ground arith

pub push-IsExact :
    (item : EventItem) (t : Table) (x : ℕ → ℕ) (n : ℕ) → IsExact t x n → IsExact (push item t) x n
unfolding push
push-IsExact item t x n c = record {
  ids = c.ids;
  rooted = c.rooted;
  keys = c.keys;
  count = c.count;
  sound = c.sound;
}

moved_from_there :
    (cookie : ℕ) (path : FilePath) (t : Table) (m : Moving)
    → (still_there path t).1 ≡ true
    → moved_from cookie path t m ≡ ((still_there path t).0, m)
unfolding moved_from
moved_from_there cookie path t m e = ground arith

moved_from-none :
    (cookie : ℕ) (path : FilePath) (t : Table) (m : Moving)
    → (still_there path t).1 ≡ false
    → detach (still_there path t).0.root path ≡ none
    → moved_from cookie path t m ≡ ((still_there path t).0, m)
unfolding moved_from
moved_from-none cookie path t m e d = ground arith

moved_from_out :
    (cookie : ℕ) (path : FilePath) (t : Table) (m : Moving) (n r : Node)
    → (still_there path t).1 ≡ false
    → detach (still_there path t).0.root path ≡ some (n, r)
    → moved_from cookie path t m
      ≡ (record (still_there path t).0 { root = r }, insert cookie (path, n) m)
unfolding moved_from
moved_from_out cookie path t m n r e d = ground arith

moved_from-IsWith :
    (cookie : ℕ) (path : FilePath) (t : Table) (m : Moving)
    → lookup cookie m ≡ none
    → IsWith t m
    → IsPair (moved_from cookie path t m)
unfolding IsPair
moved_from-IsWith cookie path t m new c =
    let u = (still_there path t).0 in
    let cu = like-IsExact t u _ _ (still_there-IsLike path t) c in
    elim (Bool-cases (still_there path t).1) [
      | inl there ↦ subst IsPair (sym (moved_from_there cookie path t m there)) cu
      | inr gone ↦ elim (Option-cases (detach u.root path)) [
        | inl e ↦ subst IsPair (sym (moved_from-none cookie path t m gone e)) cu
        | inr ((n, r), e) ↦ subst IsPair (sym (moved_from_out cookie path t m n r gone e)) (
            IsExact-as (record u { root = r }) _ _ _ _
              (λ w. omega (arith, weigh_moving-insert (is_watch w) cookie path n m new))
              (omega (arith, weigh_moving-insert one_watch cookie path n m new))
              (detach-IsExact u n r path _ _ e cu))
      ]
    ]

moved_to-none :
    (cookie : ℕ) (path : FilePath) (t : Table) (m : Moving)
    → lookup cookie m ≡ none
    → let (u, there) = still_there path t in
      moved_to cookie path t m ≡ (if there then u else drop_at true path u, erase cookie m)
unfolding moved_to
moved_to-none cookie path t m e = ground arith

moved_to-some :
    (cookie : ℕ) (path from : FilePath) (t : Table) (m : Moving) (n : Node) (b : Bool)
    → lookup cookie m ≡ some (from, n)
    → (still_there path t).1 ≡ b
    → let u = (still_there path t).0 in
      moved_to cookie path t m ≡ (
        if b
        then (drop_tree true n from u, erase cookie m)
        else (let (v, moved) = rekey n path (drop_at true path u) in
            (put path moved v, erase cookie m)))
unfolding moved_to
moved_to-some cookie path from t m n b e s = ground arith

if_there-IsExact :
    (b : Bool) (path : FilePath) (u : Table) (x : ℕ → ℕ) (k : ℕ)
    → IsExact u x k
    → IsExact (if b then u else drop_at true path u) x k
if_there-IsExact true path u x k c = c
if_there-IsExact false path u x k c = drop_at-IsExact true path u x k c

moved_to-IsWith :
    (cookie : ℕ) (path : FilePath) (t : Table) (m : Moving)
    → split_last path ≢ none
    → IsWith t m
    → IsPair (moved_to cookie path t m)
unfolding IsPair
moved_to-IsWith cookie path t m ne c =
    let u = (still_there path t).0 in
    let b = (still_there path t).1 in
    let rest = erase cookie m in
    let cu = like-IsExact t u _ _ (still_there-IsLike path t) c in
    elim (Option-cases (lookup cookie m)) [
      | inl e ↦
          let v = if b then u else drop_at true path u in
          subst IsPair (sym (moved_to-none cookie path t m e)) (
            IsExact-as v _ _ _ _
              (λ w. omega (arith, weigh_moving-erase-none (is_watch w) cookie m e))
              (omega (arith, weigh_moving-erase-none one_watch cookie m e))
              (if_there-IsExact b path u _ _ cu))
      | inr ((from, n), e) ↦
          let cn =
            IsExact-as u _ (λ w. weigh_node (is_watch w) n + weigh_moving (is_watch w) rest) _
              (weigh_node one_watch n + weigh_moving one_watch rest)
              (λ w. omega (arith, weigh_moving-erase (is_watch w) cookie from n m e))
              (omega (arith, weigh_moving-erase one_watch cookie from n m e)) cu in
          elim (Bool-cases b) [
            | inl there ↦
                subst IsPair (sym (moved_to-some cookie path from t m n true e there))
                  (drop_tree-IsExact true n from u _ _ cn)
            | inr gone ↦
                let d = drop_at true path u in
                let (v, moved) = rekey n path d in
                subst IsPair (sym (moved_to-some cookie path from t m n false e gone)) (
                  put-IsExact path moved v _ _ ne
                    (rekey-IsExact n path d _ _ (drop_at-IsExact true path u _ _ cn)))
          ]
    ]

deleted-IsExact :
    (path : FilePath) (t : Table) (x : ℕ → ℕ) (k : ℕ) → IsExact t x k → IsExact (deleted path t) x k
unfolding deleted
deleted-IsExact path t x k c =
    if_there-IsExact (still_there path t).1 path (still_there path t).0 x k
      (like-IsExact t (still_there path t).0 x k (still_there-IsLike path t) c)

apply_dir_from :
    (e : RawEvent) (path : FilePath) (t : Table) (m : Moving)
    → intersects e.mask in_moved_from ≡ true
    → apply_dir e path t m ≡ moved_from e.cookie path t m
unfolding apply_dir
apply_dir_from e path t m h = ground arith

apply_dir_to :
    (e : RawEvent) (path : FilePath) (t : Table) (m : Moving)
    → intersects e.mask in_moved_from ≡ false
    → intersects e.mask in_moved_to ≡ true
    → apply_dir e path t m ≡ moved_to e.cookie path t m
unfolding apply_dir
apply_dir_to e path t m h k = ground arith

apply_dir_else :
    (e : RawEvent) (path : FilePath) (t : Table) (m : Moving)
    → intersects e.mask in_moved_from ≡ false
    → intersects e.mask in_moved_to ≡ false
    → apply_dir e path t m ≡ (if intersects e.mask in_delete then deleted path t else t, m)
unfolding apply_dir
apply_dir_else e path t m h k = ground arith

pub apply_dir-IsWith :
    (e : RawEvent) (path : FilePath) (t : Table) (m : Moving)
    → split_last path ≢ none
    → (intersects e.mask in_moved_from ≡ true → lookup e.cookie m ≡ none)
    → IsWith t m
    → IsPair (apply_dir e path t m)
apply_dir-IsWith e path t m ne new c = elim (Bool-cases (intersects e.mask in_moved_from)) [
  | inl from ↦
      subst IsPair (sym (apply_dir_from e path t m from))
        (moved_from-IsWith e.cookie path t m (new from) c)
  | inr not_from ↦ elim (Bool-cases (intersects e.mask in_moved_to)) [
    | inl to ↦
        subst IsPair (sym (apply_dir_to e path t m not_from to))
          (moved_to-IsWith e.cookie path t m ne c)
    | inr not_to ↦ subst IsPair (sym (apply_dir_else e path t m not_from not_to)) (
        unfold IsPair in
        (elim (intersects e.mask in_delete) as (λ b. IsWith (if b then deleted path t else t) m) [
          | true ↦ deleted-IsExact path t _ _ c
          | false ↦ c
        ]))
  ]
]
