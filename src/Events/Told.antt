-- ===== src/Events/Told.antt =====
-- crates/server/src/watch.rs: which sessions a window of change events tells of an item.
use jackalopefs.Common.{
  ℕ, ◌≤◌, ◌<◌, ◌≡◌, ◌⊎◌, inl, inr, refl, sym, ap, subst, Bool, Bool-cases, true, false, not, ◌&&◌,
  ◌||◌, Option, none, some, List, [], ◌∷◌, ◌++◌, arith, leb, if◌then◌else◌, length, length-append,
  leb→le,
}
use jackalopefs.Nodes.Names.{same_names}
use jackalopefs.Nodes.Views.{same_bytes_iff}
use jackalopefs.Events.Window.{
  EventItem, Pending, same_item, is_overflow, is_seen, max_pending, new_pending, fold, fold_all,
  flush, is_origin, items_for_session, is_no_item, for_session,
}

-- The origin that an item first came with.
unfoldable pub first_origin : EventItem → List (EventItem × Option ℕ) → Option (Option ℕ)
first_origin item [] = none
first_origin item ((j, o) ∷ es) = if same_item item j then some o else first_origin item es

-- There is one, and it is not this session.
unfoldable pub is_by_another : ℕ → Option (Option ℕ) → Bool
unfolding is_origin
is_by_another s none = false
is_by_another s (some o) = not (is_origin s o)

unfoldable pub has_overflow : List (EventItem × Option ℕ) → Bool
has_overflow [] = false
has_overflow ((item, o) ∷ es) = is_overflow item || has_overflow es

-- What the session is told at the end of a window.
unfoldable pub told : ℕ → List (EventItem × Option ℕ) → List EventItem
unfolding new_pending fold_all flush for_session
told s window = elim ((flush (fold_all new_pending window)).1) [
  | none ↦ []
  | some batch ↦ elim (for_session batch s) [ none ↦ [] | some items ↦ items ]
]

same_names-eq : (a b : List (List ℕ)) → same_names a b ≡ true → a ≡ b
unfolding same_names
same_names-eq [] [] h = refl
same_names-eq [] (y ∷ b) h = ground arith
same_names-eq (x ∷ a) [] h = ground arith
same_names-eq (x ∷ a) (y ∷ b) h = ground (arith, same_bytes_iff x y, same_names-eq a b)

same_item-eq : (i j : EventItem) → same_item i j ≡ true → i ≡ j
unfolding same_item
same_item-eq (EventItem.entry d n) (EventItem.entry e m) h =
    ground (arith, same_names-eq d e, same_bytes_iff n m)
same_item-eq (EventItem.data_of p) (EventItem.data_of q) h = ground (arith, same_names-eq p q)
same_item-eq EventItem.overflow EventItem.overflow h = refl
same_item-eq (EventItem.unwatched d) (EventItem.unwatched e) h = ground (arith, same_names-eq d e)
same_item-eq _ _ h = ground arith

-- The items kept are those that came, each with its first origin.
record IsWindow (came : List (EventItem × Option ℕ)) (p : Pending) : Type 0 where
  pub open_yet : p.overflow ≡ false
  pub seen :
      (i : EventItem)
      → is_seen i p.seen ≡ (elim (first_origin i came) [ none ↦ false | some o ↦ true ])
  pub tells :
      (s : ℕ) (i : EventItem)
      → is_seen i (items_for_session s p.items) ≡ is_by_another s (first_origin i came)
  pub short : length p.items ≤ length came

first_origin-append :
    (i j : EventItem) (o : Option ℕ) (es : List (EventItem × Option ℕ))
    → first_origin i (es ++ (j, o) ∷ []) ≡ (elim (first_origin i es) [
      | none ↦ (if same_item i j then some o else none)
      | some x ↦ some x
    ])
unfolding first_origin
first_origin-append i j o [] = refl
first_origin-append i j o ((k, x) ∷ es) = ground (arith, first_origin-append i j o es)

items_for_session-append :
    (s : ℕ) (i j : EventItem) (o : Option ℕ) (es : List (EventItem × Option ℕ))
    → is_seen i (items_for_session s (es ++ (j, o) ∷ []))
      ≡ (is_seen i (items_for_session s es) || (same_item i j && not (is_origin s o)))
unfolding items_for_session is_seen
items_for_session-append s i j o [] = ground arith
items_for_session-append s i j o ((k, x) ∷ es) = ground (arith, items_for_session-append s i j o es)

-- An item that has come already changes nothing.
again-IsWindow :
    (came : List (EventItem × Option ℕ)) (p : Pending) (item : EventItem) (o : Option ℕ)
    → is_seen item p.seen ≡ true
    → IsWindow came p
    → IsWindow (came ++ (item, o) ∷ []) p
again-IsWindow came p item o known w =
    let same : (i : EventItem) → first_origin i (came ++ (item, o) ∷ []) ≡ first_origin i came =
      λ i. elim (Bool-cases (same_item i item)) [
        | inl e ↦
            let here : is_seen i p.seen ≡ true =
              subst (λ x. is_seen x p.seen ≡ true) (sym (same_item-eq i item e)) known in
            ground (arith, first_origin-append i item o came, w.seen i)
        | inr e ↦ ground (arith, first_origin-append i item o came)
      ] in
    record {
      open_yet = w.open_yet;
      seen = λ i. ground (arith, same i, w.seen i);
      tells = λ s i. ground (arith, same i, w.tells s i);
      short = omega (arith, w.short, length-append came ((item, o) ∷ []));
    }

added-IsWindow :
    (came : List (EventItem × Option ℕ)) (p : Pending) (item : EventItem) (o : Option ℕ)
    → is_seen item p.seen ≡ false
    → IsWindow came p
    → IsWindow
        (came ++ (item, o) ∷ [])
        (record p { seen = item ∷ p.seen; items = p.items ++ (item, o) ∷ [] })
unfolding is_seen is_by_another
added-IsWindow came p item o unknown w = record {
  open_yet = w.open_yet;
  seen = λ i. ground (arith, first_origin-append i item o came, w.seen i);
  tells = λ s i. elim (Bool-cases (same_item i item)) [
    | inl e ↦
        let here : is_seen i p.seen ≡ false =
          subst (λ x. is_seen x p.seen ≡ false) (sym (same_item-eq i item e)) unknown in
        ground (
          arith,
          first_origin-append i item o came,
          items_for_session-append s i item o p.items,
          w.seen i,
          w.tells s i,
        )
    | inr e ↦ ground (
      arith,
      first_origin-append i item o came,
      items_for_session-append s i item o p.items,
      w.tells s i,
    )
  ];
  short =
      omega (
        arith,
        w.short,
        length-append came ((item, o) ∷ []),
        length-append p.items ((item, o) ∷ []),
      );
}

append-nil : (es : List (EventItem × Option ℕ)) → es ++ [] ≡ es
append-nil [] = refl
append-nil (e ∷ es) = ap (λ fs. e ∷ fs) (append-nil es)

append_assoc : (as' bs cs : List (EventItem × Option ℕ)) → (as' ++ bs) ++ cs ≡ as' ++ (bs ++ cs)
append_assoc [] bs cs = refl
append_assoc (a ∷ as') bs cs = ap (λ es. a ∷ es) (append_assoc as' bs cs)

fold_all_overflow :
    (p : Pending) (more : List (EventItem × Option ℕ))
    → p.overflow ≡ true
    → (fold_all p more).overflow ≡ true
unfolding fold_all fold
fold_all_overflow p [] e = e
fold_all_overflow p ((item, o) ∷ more) e = fold_all_overflow (fold p item o) more (ground arith)

-- What is due an overflow.
abbrev pub IsOver : ℕ → List (EventItem × Option ℕ) → Type 0
IsOver n more = (has_overflow more ≡ true) ⊎ (max_pending < n)

fold_all-IsWindow :
    (came more : List (EventItem × Option ℕ)) (p : Pending)
    → IsWindow came p
    → ((fold_all p more).overflow ≡ true) × IsOver (length (came ++ more)) more
      ⊎ IsWindow (came ++ more) (fold_all p more)
unfolding fold_all fold has_overflow
fold_all-IsWindow came [] p w = inr (subst (λ x. IsWindow x p) (sym (append-nil came)) w)
fold_all-IsWindow came ((item, o) ∷ more) p w =
    let after = came ++ (item, o) ∷ [] in
    let rest : (q : Pending)
        → IsWindow after q
        → ((fold_all q more).overflow ≡ true)
            × IsOver (length (came ++ (item, o) ∷ more)) ((item, o) ∷ more)
          ⊎ IsWindow (came ++ (item, o) ∷ more) (fold_all q more) =
      λ q v.
        let same = append_assoc came ((item, o) ∷ []) more in
        elim (fold_all-IsWindow after more q v) [
          | inl (over, due) ↦ inl (
            over,
            elim due [
              | inl has ↦ inl (ground arith)
              | inr many ↦ inr (subst (λ x. max_pending < length x) same many)
            ],
          )
          | inr u ↦ inr (subst (λ x. IsWindow x (fold_all q more)) same u)
        ] in
    elim (Bool-cases (is_overflow item || leb max_pending (length p.items))) [
      | inl over ↦
          let bad : (fold p item o).overflow ≡ true = ground (arith, w.open_yet) in
          inl (
            fold_all_overflow (fold p item o) more bad,
            elim (Bool-cases (is_overflow item)) [
              | inl is_it ↦ inl (ground arith)
              | inr not_it ↦ inr (
                  omega (
                    arith,
                    w.short,
                    length-append came ((item, o) ∷ more),
                    leb→le max_pending (length p.items) (ground arith),
                  ))
            ],
          )
      | inr fits ↦ elim (Bool-cases (is_seen item p.seen)) [
        | inl known ↦
            let same : fold p item o ≡ p = ground (arith, w.open_yet) in
            rest (fold p item o)
              (subst (λ x. IsWindow after x) (sym same) (again-IsWindow came p item o known w))
        | inr unknown ↦
            let same : fold p item o
                ≡ record p { seen = item ∷ p.seen; items = p.items ++ (item, o) ∷ [] } =
              ground (arith, w.open_yet) in
            rest (fold p item o)
              (subst (λ x. IsWindow after x) (sym same) (added-IsWindow came p item o unknown w))
      ]
    ]

new-IsWindow : IsWindow [] new_pending
unfolding new_pending first_origin is_seen items_for_session is_by_another
new-IsWindow = record {
  open_yet = refl;
  seen = λ i. refl;
  tells = λ s i. refl;
  short = omega arith;
}

-- Of a window that started empty, unless it was due an overflow, of which every session is then told, a
-- session is told of an item exactly if the item came and first came with another origin: none, or
-- another session. What comes after it with another origin makes no difference. A window is due an
-- overflow only if an overflow came, or more than 10000 items did.
pub told_lem :
    (window : List (EventItem × Option ℕ)) (s : ℕ) (item : EventItem)
    → (told s window ≡ EventItem.overflow ∷ []) × IsOver (length window) window
      ⊎ is_seen item (told s window) ≡ is_by_another s (first_origin item window)
unfolding told flush for_session items_for_session is_origin is_no_item
told_lem window s item = elim (fold_all-IsWindow [] window new_pending new-IsWindow) [
  | inl (over, due) ↦ inl (ground arith, due)
  | inr w ↦ inr (ground (arith, w.tells s item, w.open_yet))
]
