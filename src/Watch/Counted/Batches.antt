-- ===== src/Watch/Counted/Batches.antt =====
-- crates/server/src/watch.rs: that a batch of inotify events keeps the table counted while it lives.
use jackalopefs.Common.{
  ℕ, ◌≡◌, ◌≢◌, ◌⊎◌, inl, inr, refl, sym, subst, Bool-cases, true, false, ◌&&◌, ◌||◌, Option-cases,
  none, some, List, [], ◌∷◌, arith, ◌==◌, lookup, lookup-insert,
}
use jackalopefs.Proto.Path.{split_last, join, split_last-join}
use jackalopefs.Proto.Message.{FilePath}
use jackalopefs.Events.Window.{EventItem}
use jackalopefs.Events.Origins.{intersects, in_moved_from}
use jackalopefs.Watch.Tree.{detach}
use jackalopefs.Watch.Table.{Table, drop_at}
use jackalopefs.Watch.Ops.{still_there}
use jackalopefs.Watch.Apply.{
  RawEvent, Moving, recheck, die, push, report, drop_moving, moved_from, moved_to, apply_dir,
  apply_entry, is_root, with_children, ended_watch, apply_event, apply_from, apply, in_isdir,
  in_q_overflow, in_ignored, in_unmount, in_delete_self, in_move_self,
}
use jackalopefs.Watch.Counted.{IsExact}
use jackalopefs.Watch.Counted.Moves.{drop_at-IsExact}
use jackalopefs.Watch.Counted.Placed.{like-IsExact}
use jackalopefs.Watch.Counted.Same.{drop_moving-IsSame}
use jackalopefs.Watch.Counted.Rechecked.{recheck-IsExact}
use jackalopefs.Watch.Counted.Applied.{IsPair, push-IsExact, report-IsLike, apply_dir-IsWith}
use jackalopefs.Watch.Counted.Moving.{
  weigh_moving, lookup-erase-none, IsWith, drop_moving-IsExact, takes_cookie, cookies_once,
  IsUntaken,
}

apply_entry_dir :
    (e : RawEvent) (t : Table) (m : Moving) (dir path : FilePath) (name : List ℕ)
    → (report e t).1 ≡ some (dir, name)
    → intersects e.mask in_isdir ≡ true
    → join dir name ≡ some path
    → apply_entry e t m ≡ apply_dir e path (report e t).0 m
unfolding apply_entry
apply_entry_dir e t m dir path name r d j = ground arith

-- An event is about a directory, or changes nothing but `out`.
apply_entry_cases :
    (e : RawEvent) (t : Table) (m : Moving)
    → (apply_entry e t m ≡ ((report e t).0, m))
      ⊎ ((path : FilePath) × (split_last path ≢ none)
          × (apply_entry e t m ≡ apply_dir e path (report e t).0 m))
unfolding apply_entry
apply_entry_cases e t m = elim (Option-cases (report e t).1) [
  | inl no_report ↦ inl (ground arith)
  | inr ((dir, name), r) ↦ elim (Bool-cases (intersects e.mask in_isdir)) [
    | inr file ↦ inl (ground arith)
    | inl is_dir ↦ elim (Option-cases (join dir name)) [
      | inl long ↦ inl (ground arith)
      | inr (path, j) ↦ inr (
        path,
        λ bad. ground (arith, (split_last-join dir name path j).1),
        apply_entry_dir e t m dir path name r is_dir j,
      )
    ]
  ]
]

apply_entry-IsPair :
    (e : RawEvent) (t : Table) (m : Moving)
    → (intersects e.mask in_moved_from ≡ true → lookup e.cookie m ≡ none)
    → IsWith t m
    → IsPair (apply_entry e t m)
apply_entry-IsPair e t m new c =
    let u = (report e t).0 in
    let cu = like-IsExact t u _ _ (report-IsLike e t) c in
    elim (apply_entry_cases e t m) [
      | inl same ↦ subst IsPair (sym same) (unfold IsPair in cu)
      | inr (path, ne, same) ↦ subst IsPair (sym same) (apply_dir-IsWith e path u m ne new cu)
    ]

-- The table ended, or is counted but for what was taken out.
IsOver : Table × Moving → Type 0
IsOver (t, m) = (t.dead ≡ true) ⊎ IsWith t m

ended_ignored :
    (e : RawEvent) (dir : FilePath) (t : Table)
    → is_root dir ≡ false
    → intersects e.mask in_ignored ≡ true
    → ended_watch e dir t ≡ drop_at false dir t
unfolding ended_watch
ended_ignored e dir t h k = ground arith

ended_kept :
    (e : RawEvent) (dir : FilePath) (t : Table)
    → is_root dir ≡ false
    → intersects e.mask in_ignored ≡ false
    → ended_watch e dir t ≡ t
unfolding ended_watch
ended_kept e dir t h k = ground arith

ended_watch-IsOver :
    (e : RawEvent) (dir : FilePath) (t : Table) (m : Moving)
    → IsWith t m
    → IsOver (ended_watch e dir t, m)
unfolding IsOver
ended_watch-IsOver e dir t m c = elim (Bool-cases (is_root dir)) [
  | inl root ↦ inl (unfold ended_watch die push with_children in (ground arith))
  | inr other ↦ elim (Bool-cases (intersects e.mask in_ignored)) [
    | inl gone ↦ inr (
        subst (λ u. IsWith u m) (sym (ended_ignored e dir t other gone))
          (drop_at-IsExact false dir t _ _ c))
    | inr kept ↦ inr (subst (λ u. IsWith u m) (sym (ended_kept e dir t other kept)) c)
  ]
]

-- The kinds of events.
apply_event_cases :
    (e : RawEvent) (t : Table) (m : Moving)
    → (apply_event e t m ≡ (recheck (push EventItem.overflow (drop_moving m t)), []))
      ⊎ (apply_event e t m ≡ (t, m))
      ⊎ ((dir : FilePath) × (apply_event e t m ≡ (ended_watch e dir t, m)))
      ⊎ (apply_event e t m ≡ apply_entry e t m)
unfolding apply_event
apply_event_cases e t m = elim (Bool-cases (intersects e.mask in_q_overflow)) [
  | inl lost ↦ inl (ground arith)
  | inr none_lost ↦ elim (Option-cases (lookup e.wd t.by_wd)) [
    | inl unknown ↦ inr (inl (ground arith))
    | inr (dir, at) ↦
        elim (Bool-cases (
          intersects e.mask in_ignored
          || intersects e.mask in_unmount
          || intersects e.mask in_delete_self)) [
            | inl ends ↦ inr (inr (inl (dir, ground arith)))
            | inr lives ↦ elim (Bool-cases (intersects e.mask in_move_self)) [
              | inl moved ↦ inr (inl (ground arith))
              | inr stays ↦ inr (inr (inr (ground arith)))
            ]
          ]
  ]
]

apply_event-IsOver :
    (e : RawEvent) (t : Table) (m : Moving)
    → (intersects e.mask in_moved_from ≡ true → lookup e.cookie m ≡ none)
    → IsWith t m
    → IsOver (apply_event e t m)
apply_event-IsOver e t m new c = elim (apply_event_cases e t m) [
  | inl same ↦ subst IsOver (sym same) (
      unfold IsOver weigh_moving in
      (inr (
        recheck-IsExact (push EventItem.overflow (drop_moving m t))
          (push-IsExact EventItem.overflow (drop_moving m t) _ _ (drop_moving-IsExact m t c)))))
  | inr (inl same) ↦ subst IsOver (sym same) (unfold IsOver in (inr c))
  | inr (inr (inl (dir, same))) ↦ subst IsOver (sym same) (ended_watch-IsOver e dir t m c)
  | inr (inr (inr same)) ↦
      subst IsOver (sym same) (unfold IsOver IsPair in (inr (apply_entry-IsPair e t m new c)))
]

-- A cookie is taken by no event but one that takes a directory out under it.
apply_dir-lookup :
    (k : ℕ) (e : RawEvent) (path : FilePath) (t : Table) (m : Moving)
    → lookup k m ≡ none
    → (intersects e.mask in_moved_from && e.cookie == k) ≡ false
    → lookup k (apply_dir e path t m).1 ≡ none
unfolding apply_dir moved_from moved_to
apply_dir-lookup k e path t m new other = elim (Bool-cases (intersects e.mask in_moved_from)) [
  | inl from ↦ elim (Option-cases (detach (still_there path t).0.root path)) [
    | inl none_there ↦ ground arith
    | inr ((n, r), out) ↦ ground (arith, lookup-insert e.cookie k (path, n) m)
  ]
  | inr not_from ↦ ground (arith, lookup-erase-none e.cookie k m)
]

apply_event-lookup :
    (k : ℕ) (e : RawEvent) (t : Table) (m : Moving)
    → lookup k m ≡ none
    → (intersects e.mask in_moved_from && e.cookie == k) ≡ false
    → lookup k (apply_event e t m).1 ≡ none
apply_event-lookup k e t m new other =
    let Has = λ (r : Table × Moving). lookup k r.1 ≡ none in
    elim (apply_event_cases e t m) [
      | inl same ↦ subst Has (sym same) refl
      | inr (inl same) ↦ subst Has (sym same) new
      | inr (inr (inl (dir, same))) ↦ subst Has (sym same) new
      | inr (inr (inr same)) ↦ subst Has (sym same) (elim (apply_entry_cases e t m) [
        | inl like ↦ subst Has (sym like) new
        | inr (path, ne, like) ↦
            subst Has (sym like) (apply_dir-lookup k e path (report e t).0 m new other)
      ])
    ]

-- A batch ends the table or leaves it counted.
IsEnd : Table → Type 0
IsEnd t = (t.dead ≡ true) ⊎ IsExact t (λ w. 0) 0

apply_from_dead :
    (e : RawEvent) (es : List RawEvent) (t : Table) (m : Moving)
    → t.dead ≡ true
    → apply_from (e ∷ es) t m ≡ drop_moving m t
unfolding apply_from
apply_from_dead e es t m h = ground arith

apply_from_alive :
    (e : RawEvent) (es : List RawEvent) (t : Table) (m : Moving)
    → t.dead ≡ false
    → let (u, m') = apply_event e t m in apply_from (e ∷ es) t m ≡ apply_from es u m'
unfolding apply_from
apply_from_alive e es t m h = ground arith

only_once :
    (e : RawEvent) (es : List RawEvent) (k : ℕ)
    → cookies_once (e ∷ es) ≡ true
    → takes_cookie k es ≡ true
    → (intersects e.mask in_moved_from && e.cookie == k) ≡ false
unfolding cookies_once
only_once e es k once later = elim (Bool-cases (e.cookie == k)) [
  | inr other ↦ ground arith
  | inl same ↦
      let here : takes_cookie e.cookie es ≡ true =
        subst (λ j. takes_cookie j es ≡ true) (ground arith) later in
      ground arith
]

apply_from-IsEnd :
    (es : List RawEvent) (t : Table) (m : Moving)
    → cookies_once es ≡ true
    → IsUntaken es m
    → IsOver (t, m)
    → IsEnd (apply_from es t m)
unfolding IsEnd IsOver cookies_once takes_cookie
apply_from-IsEnd [] t m once new (inl dead) =
    unfold apply_from in
    (inl (subst (λ b. (drop_moving m t).dead ≡ b) dead (drop_moving-IsSame m t).dead))
apply_from-IsEnd [] t m once new (inr c) = unfold apply_from in (inr (drop_moving-IsExact m t c))
apply_from-IsEnd (e ∷ es) t m once new over = elim (Bool-cases t.dead) [
  | inl dead ↦
      subst IsEnd (sym (apply_from_dead e es t m dead))
        (inl (subst (λ b. (drop_moving m t).dead ≡ b) dead (drop_moving-IsSame m t).dead))
  | inr lives ↦
      let c : IsWith t m = elim over [ inl dead ↦ absurd (ground arith) | inr c ↦ c ] in
      let (u, m') = apply_event e t m in
      subst IsEnd (sym (apply_from_alive e es t m lives)) (
        apply_from-IsEnd es u m' (ground arith)
          (λ k later.
            apply_event-lookup k e t m (new k (ground arith)) (only_once e es k once later))
          (apply_event-IsOver e t m (λ from. new e.cookie (ground arith)) c))
]

-- While the table lives, a batch in which no cookie is taken twice leaves it counted.
pub apply-IsExact :
    (es : List RawEvent) (t : Table)
    → cookies_once es ≡ true
    → IsExact t (λ w. 0) 0
    → ((apply es t).dead ≡ true) ⊎ IsExact (apply es t) (λ w. 0) 0
unfolding apply IsEnd IsOver weigh_moving
apply-IsExact es t once c = apply_from-IsEnd es t [] once (λ k h. refl) (inr c)
