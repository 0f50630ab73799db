-- ===== src/Dirents/Paged.antt =====
-- crates/server/src/dirents.rs: what a page of a directory holds.
use jackalopefs.Common.{
  ℕ, ◌≡◌, ◌⊎◌, inl, inr, refl, sym, ap, subst, ◌∙◌, true, false, List, [], ◌∷◌, ◌++◌, All,
  All-append,
}
use mathlib.Core.List.{append_assoc, append-nil}
use jackalopefs.Proto.Types.{DirEntry}
use jackalopefs.Dirents.Parse.{RawDirent, parse}
use jackalopefs.Dirents.Page.{
  Described, Filled, Fate, describe, Collected, collect, Listed, read_fills,
}
use jackalopefs.Dirents.Collected.{
  add_listed, listed_of, bytes_of, HasRoom, IsFilled, IsListed, IsCollected, collect-IsCollected,
}

-- The records that getdents64 fills, until it fills nothing or fails.
unfoldable pub seen : List Filled → List RawDirent
seen [] = []
seen (Filled.err e ∷ fills) = []
seen (Filled.ok [] ∷ fills) = []
seen (Filled.ok (b ∷ bytes) ∷ fills) = parse (b ∷ bytes) ++ seen fills

-- A buffer that is not empty.
unfoldable pub GoesOn : Filled → Type 0
GoesOn (Filled.err e) = ⊥
GoesOn (Filled.ok []) = ⊥
GoesOn (Filled.ok (b ∷ bytes)) = Unit {0}

add_listed-append :
    (f : Fate) (xs ys : List DirEntry) → add_listed f (xs ++ ys) ≡ add_listed f xs ++ ys
unfolding add_listed
add_listed-append (Fate.listed e) xs ys = refl
add_listed-append Fate.skipped xs ys = refl
add_listed-append (Fate.failed n) xs ys = refl

module _ (attr_entry : RawDirent → Described) (max_bytes : ℕ) where
  -- What a page is of the records that are seen, after the entries that it had: the entries of those
  -- before it was filled, or of all of them. An error is of a record, or of getdents64.
  unfoldable pub IsPage : List Filled → List DirEntry → Listed → Type 0
  unfolding HasRoom IsFilled GoesOn
  IsPage fills had (Listed.ok l) =
      (before : List RawDirent) × (after : List RawDirent) × (seen fills ≡ before ++ after)
      × (l.entries ≡ had ++ listed_of attr_entry before)
      × All (IsListed attr_entry) before
      × (((l.end ≡ true) × (after ≡ []) × HasRoom max_bytes l.entries)
          ⊎ ((l.end ≡ false) × IsFilled max_bytes l.entries))
  IsPage fills had (Listed.err e) =
      ((before : List RawDirent) × (raw : RawDirent) × (after : List RawDirent) × (seen fills
          ≡ before ++ raw ∷ after)
        × (describe attr_entry raw ≡ Fate.failed e)
        × HasRoom max_bytes (had ++ listed_of attr_entry before)
        × All (IsListed attr_entry) before)
      ⊎ ((before : List Filled) × (after : List Filled) × (fills ≡ before ++ Filled.err e ∷ after)
          × All GoesOn before
          × HasRoom max_bytes (had ++ listed_of attr_entry (seen before))
          × All (IsListed attr_entry) (seen before))

  listed_of-append :
      (xs ys : List RawDirent)
      → listed_of attr_entry (xs ++ ys) ≡ listed_of attr_entry xs ++ listed_of attr_entry ys
  unfolding listed_of
  listed_of-append [] ys = refl
  listed_of-append (x ∷ xs) ys =
      ap (add_listed (describe attr_entry x)) (listed_of-append xs ys)
      ∙ add_listed-append (describe attr_entry x) (listed_of attr_entry xs)
          (listed_of attr_entry ys)

  joined :
      (had es : List DirEntry) (raws before : List RawDirent)
      → es ≡ had ++ listed_of attr_entry raws
      → es ++ listed_of attr_entry before ≡ had ++ listed_of attr_entry (raws ++ before)
  joined had es raws before is =
      ap (λ (x : List DirEntry). x ++ listed_of attr_entry before) is
      ∙ append_assoc had (listed_of attr_entry raws) (listed_of attr_entry before)
      ∙ ap (λ (x : List DirEntry). had ++ x) (sym (listed_of-append raws before))

  -- The whole of a buffer, and then the others.
  more-IsPage :
      (b : ℕ) (bytes : List ℕ) (fills : List Filled) (had es : List DirEntry) (l : Listed)
      → es ≡ had ++ listed_of attr_entry (parse (b ∷ bytes))
      → All (IsListed attr_entry) (parse (b ∷ bytes))
      → IsPage fills es l
      → IsPage (Filled.ok (b ∷ bytes) ∷ fills) had l
  unfolding IsPage seen GoesOn
  more-IsPage b bytes fills had es (Listed.ok l) is all (before, after, split, rest, listed, end) =
      let raws = parse (b ∷ bytes) in
      (
        raws ++ before,
        after,
        ap (λ (x : List RawDirent). raws ++ x) split ∙ sym (append_assoc raws before after),
        rest ∙ joined had es raws before is,
        All-append (IsListed attr_entry) raws before all listed,
        end,
      )
  more-IsPage b bytes fills had es (Listed.err e) is all
        (inl (before, raw, after, split, d, room, listed)) =
      let raws = parse (b ∷ bytes) in
      inl (
        raws ++ before,
        raw,
        after,
        ap (λ (x : List RawDirent). raws ++ x) split ∙ sym (append_assoc raws before (raw ∷ after)),
        d,
        subst (HasRoom max_bytes) (joined had es raws before is) room,
        All-append (IsListed attr_entry) raws before all listed,
      )
  more-IsPage b bytes fills had es (Listed.err e) is all
        (inr (before, after, split, go, room, listed)) =
      let raws = parse (b ∷ bytes) in
      inr (
        Filled.ok (b ∷ bytes) ∷ before,
        after,
        ap (λ (x : List Filled). Filled.ok (b ∷ bytes) ∷ x) split,
        (tt, go),
        subst (HasRoom max_bytes) (joined had es raws (seen before) is) room,
        All-append (IsListed attr_entry) raws (seen before) all listed,
      )

  -- A buffer after which the listing goes no further.
  full-IsPage :
      (b : ℕ) (bytes : List ℕ) (fills : List Filled) (had es : List DirEntry)
      → IsCollected attr_entry max_bytes (parse (b ∷ bytes)) had (Collected.full es)
      → IsPage
          (Filled.ok (b ∷ bytes) ∷ fills)
          had
          (Listed.ok (record { entries = es; end = false }))
  unfolding IsPage seen IsCollected
  full-IsPage b bytes fills had es (before, after, split, is, filled, all) = (
    before,
    after ++ seen fills,
    ap (λ (x : List RawDirent). x ++ seen fills) split ∙ append_assoc before after (seen fills),
    is,
    all,
    inr (refl, filled),
  )

  ended-IsPage :
      (b : ℕ) (bytes : List ℕ) (fills : List Filled) (had : List DirEntry) (e : ℕ)
      → IsCollected attr_entry max_bytes (parse (b ∷ bytes)) had (Collected.ended e)
      → IsPage (Filled.ok (b ∷ bytes) ∷ fills) had (Listed.err e)
  unfolding IsPage seen IsCollected
  ended-IsPage b bytes fills had e (before, raw, after, split, d, room, all) = inl (
    before,
    raw,
    after ++ seen fills,
    ap (λ (x : List RawDirent). x ++ seen fills) split
        ∙ append_assoc before (raw ∷ after) (seen fills),
    d,
    room,
    all,
  )

  Collected-cases :
      (c : Collected)
      → ((u : ℕ) × (es : List DirEntry) × (c ≡ Collected.more u es))
        ⊎ ((es : List DirEntry) × (c ≡ Collected.full es))
        ⊎ ((e : ℕ) × (c ≡ Collected.ended e))
  Collected-cases (Collected.more u es) = inl (u, es, refl)
  Collected-cases (Collected.full es) = inr (inl (es, refl))
  Collected-cases (Collected.ended e) = inr (inr (e, refl))

  err-IsPage :
      (fills : List Filled) (had : List DirEntry) (e : ℕ)
      → HasRoom max_bytes had
      → IsPage (Filled.err e ∷ fills) had (Listed.err e)
  unfolding IsPage seen listed_of
  err-IsPage fills had e room =
      inr ([], fills, refl, tt, subst (HasRoom max_bytes) (sym (append-nil had)) room, tt)

  end-IsPage :
      (fills : List Filled) (had : List DirEntry)
      → seen fills ≡ []
      → HasRoom max_bytes had
      → IsPage fills had (Listed.ok (record { entries = had; end = true }))
  unfolding IsPage listed_of
  end-IsPage fills had e room = ([], [], e, sym (append-nil had), tt, inl (refl, refl, room))

  pub read_fills-IsPage :
      (fills : List Filled) (used : ℕ) (had : List DirEntry)
      → used ≡ bytes_of had
      → HasRoom max_bytes had
      → IsPage fills had (read_fills attr_entry max_bytes fills used had)
  unfolding read_fills seen IsCollected
  read_fills-IsPage [] used had u room = end-IsPage [] had refl room
  read_fills-IsPage (Filled.err e ∷ fills) used had u room = err-IsPage fills had e room
  read_fills-IsPage (Filled.ok [] ∷ fills) used had u room =
      end-IsPage (Filled.ok [] ∷ fills) had refl room
  read_fills-IsPage (Filled.ok (b ∷ bytes) ∷ fills) used had u room =
      let raws = parse (b ∷ bytes) in
      let c = collect-IsCollected attr_entry max_bytes raws used had u room in
      elim (Collected-cases (collect attr_entry max_bytes raws used had)) [
        | inl (v, es, e) ↦
            let (is, sum, left, all) = subst (IsCollected attr_entry max_bytes raws had) e c in
            subst (IsPage (Filled.ok (b ∷ bytes) ∷ fills) had) (sym (rw (e, read_fills) refl)) (
              more-IsPage b bytes fills had es (read_fills attr_entry max_bytes fills v es) is all
                (read_fills-IsPage fills v es sum left))
        | inr (inl (es, e)) ↦
            subst (IsPage (Filled.ok (b ∷ bytes) ∷ fills) had) (sym (rw (e, read_fills) refl)) (
              full-IsPage b bytes fills had es
                (subst (IsCollected attr_entry max_bytes raws had) e c))
        | inr (inr (n, e)) ↦
            subst (IsPage (Filled.ok (b ∷ bytes) ∷ fills) had) (sym (rw (e, read_fills) refl)) (
              ended-IsPage b bytes fills had n
                (subst (IsCollected attr_entry max_bytes raws had) e c))
      ]
