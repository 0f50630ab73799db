-- ===== src/Dirents/Collected.antt =====
-- crates/server/src/dirents.rs: what the records of one buffer add to a page.
use jackalopefs.Common.{
  ℕ, ◌+◌, ◌≤◌, ◌<◌, ◌≡◌, ◌≢◌, ◌⊎◌, inl, inr, refl, sym, ap, subst, ◌∙◌, Bool-cases, true, false,
  List, [], ◌∷◌, ◌++◌, arith, leb, sum_by, All,
}
use mathlib.Core.List.{append_assoc, append-nil}
use jackalopefs.Proto.Types.{DirEntry}
use jackalopefs.Dirents.Parse.{RawDirent}
use jackalopefs.Dirents.Page.{Described, Fate, describe, entry_bytes, Collected, collect}

-- The entries of the records that can be described.
unfoldable pub add_listed : Fate → List DirEntry → List DirEntry
add_listed (Fate.listed e) es = e ∷ es
add_listed Fate.skipped es = es
add_listed (Fate.failed n) es = es

unfoldable pub listed_of : (RawDirent → Described) → List RawDirent → List DirEntry
unfolding add_listed
listed_of attr_entry [] = []
listed_of attr_entry (raw ∷ raws) = add_listed (describe attr_entry raw) (listed_of attr_entry raws)

abbrev pub bytes_of : List DirEntry → ℕ
bytes_of es = sum_by entry_bytes es

bytes_of-snoc :
    (es : List DirEntry) (e : DirEntry) → bytes_of (es ++ e ∷ []) ≡ bytes_of es + entry_bytes e
bytes_of-snoc [] e = omega arith
bytes_of-snoc (x ∷ es) e = omega (arith, bytes_of-snoc es e)

-- Entries that leave room for another.
unfoldable pub HasRoom : ℕ → List DirEntry → Type 0
HasRoom max_bytes es = (es ≡ []) ⊎ (bytes_of es < max_bytes)

-- Entries of which the last one filled the page.
unfoldable pub IsFilled : ℕ → List DirEntry → Type 0
unfolding HasRoom
IsFilled max_bytes es =
    (max_bytes ≤ bytes_of es)
    × ((before : List DirEntry) × (e : DirEntry) × (es ≡ before ++ e ∷ [])
        × HasRoom max_bytes before)

-- A record that does not end the listing.
unfoldable pub IsListed : (RawDirent → Described) → RawDirent → Type 0
IsListed attr_entry raw = (n : ℕ) → describe attr_entry raw ≢ Fate.failed n

module _ (attr_entry : RawDirent → Described) (max_bytes : ℕ) where
  -- What the loop on the records of a buffer gives, from entries that it had.
  unfoldable pub IsCollected : List RawDirent → List DirEntry → Collected → Type 0
  unfolding HasRoom IsFilled
  IsCollected raws had (Collected.more used es) =
      (es ≡ had ++ listed_of attr_entry raws)
      × (used ≡ bytes_of es)
      × HasRoom max_bytes es
      × All (IsListed attr_entry) raws
  IsCollected raws had (Collected.full es) =
      (before : List RawDirent) × (after : List RawDirent) × (raws ≡ before ++ after)
      × (es ≡ had ++ listed_of attr_entry before)
      × IsFilled max_bytes es
      × All (IsListed attr_entry) before
  IsCollected raws had (Collected.ended e) =
      (before : List RawDirent) × (raw : RawDirent) × (after : List RawDirent) × (raws
        ≡ before ++ raw ∷ after)
      × (describe attr_entry raw ≡ Fate.failed e)
      × HasRoom max_bytes (had ++ listed_of attr_entry before)
      × All (IsListed attr_entry) before

  Fate-cases :
      (f : Fate)
      → ((e : DirEntry) × (f ≡ Fate.listed e))
        ⊎ (f ≡ Fate.skipped)
        ⊎ ((n : ℕ) × (f ≡ Fate.failed n))
  Fate-cases (Fate.listed e) = inl (e, refl)
  Fate-cases Fate.skipped = inr (inl refl)
  Fate-cases (Fate.failed n) = inr (inr (n, refl))

  listed_of-cons :
      (raw : RawDirent) (raws : List RawDirent) (f : Fate)
      → describe attr_entry raw ≡ f
      → listed_of attr_entry (raw ∷ raws) ≡ add_listed f (listed_of attr_entry raws)
  unfolding listed_of
  listed_of-cons raw raws f e = ap (λ (g : Fate). add_listed g (listed_of attr_entry raws)) e

  -- A record that is skipped.
  skipped-IsCollected :
      (raw : RawDirent) (raws : List RawDirent) (had : List DirEntry) (c : Collected)
      → describe attr_entry raw ≡ Fate.skipped
      → IsCollected raws had c
      → IsCollected (raw ∷ raws) had c
  unfolding IsCollected IsListed add_listed
  skipped-IsCollected raw raws had (Collected.more used es) d (is, u, room, all) = (
    is ∙ ap (λ (x : List DirEntry). had ++ x) (sym (listed_of-cons raw raws Fate.skipped d)),
    u,
    room,
    (λ n e. cc, all),
  )
  skipped-IsCollected raw raws had (Collected.full es) d (before, after, split, is, filled, all) = (
    raw ∷ before,
    after,
    ap (λ (x : List RawDirent). raw ∷ x) split,
    is ∙ ap (λ (x : List DirEntry). had ++ x) (sym (listed_of-cons raw before Fate.skipped d)),
    filled,
    (λ n e. cc, all),
  )
  skipped-IsCollected raw raws had (Collected.ended e) d (before, r, after, split, f, room, all) = (
    raw ∷ before,
    r,
    after,
    ap (λ (x : List RawDirent). raw ∷ x) split,
    f,
    subst (λ es. HasRoom max_bytes (had ++ es)) (sym (listed_of-cons raw before Fate.skipped d))
        room,
    (λ n e. cc, all),
  )

  -- A record that is listed.
  listed-IsCollected :
      (raw : RawDirent) (raws : List RawDirent) (had : List DirEntry) (l : DirEntry) (c : Collected)
      → describe attr_entry raw ≡ Fate.listed l
      → IsCollected raws (had ++ l ∷ []) c
      → IsCollected (raw ∷ raws) had c
  unfolding IsCollected IsListed add_listed
  listed-IsCollected raw raws had l (Collected.more used es) d (is, u, room, all) = (
    is
        ∙ append_assoc had (l ∷ []) (listed_of attr_entry raws)
        ∙ ap (λ (x : List DirEntry). had ++ x) (sym (listed_of-cons raw raws (Fate.listed l) d)),
    u,
    room,
    (λ n e. cc, all),
  )
  listed-IsCollected raw raws had l (Collected.full es) d (before, after, split, is, filled, all) =
      (
        raw ∷ before,
        after,
        ap (λ (x : List RawDirent). raw ∷ x) split,
        is
            ∙ append_assoc had (l ∷ []) (listed_of attr_entry before)
            ∙ ap (λ (x : List DirEntry). had ++ x)
                (sym (listed_of-cons raw before (Fate.listed l) d)),
        filled,
        (λ n e. cc, all),
      )
  listed-IsCollected raw raws had l (Collected.ended e) d (before, r, after, split, f, room, all) =
      (
        raw ∷ before,
        r,
        after,
        ap (λ (x : List RawDirent). raw ∷ x) split,
        f,
        subst (HasRoom max_bytes)
            (append_assoc had (l ∷ []) (listed_of attr_entry before)
              ∙ ap (λ (x : List DirEntry). had ++ x)
                  (sym (listed_of-cons raw before (Fate.listed l) d)))
            room,
        (λ n e. cc, all),
      )

  collect-skipped :
      (raw : RawDirent) (raws : List RawDirent) (used : ℕ) (had : List DirEntry)
      → describe attr_entry raw ≡ Fate.skipped
      → collect attr_entry max_bytes (raw ∷ raws) used had
        ≡ collect attr_entry max_bytes raws used had
  unfolding collect
  collect-skipped raw raws used had d = rw (d, collect) refl

  collect-failed :
      (raw : RawDirent) (raws : List RawDirent) (used : ℕ) (had : List DirEntry) (n : ℕ)
      → describe attr_entry raw ≡ Fate.failed n
      → collect attr_entry max_bytes (raw ∷ raws) used had ≡ Collected.ended n
  unfolding collect
  collect-failed raw raws used had n d = rw (d, collect) refl

  collect-full :
      (raw : RawDirent) (raws : List RawDirent) (used : ℕ) (had : List DirEntry) (l : DirEntry)
      → describe attr_entry raw ≡ Fate.listed l
      → leb max_bytes (used + entry_bytes l) ≡ true
      → collect attr_entry max_bytes (raw ∷ raws) used had ≡ Collected.full (had ++ l ∷ [])
  unfolding collect
  collect-full raw raws used had l d b = rw (d, b, collect) refl

  collect-more :
      (raw : RawDirent) (raws : List RawDirent) (used : ℕ) (had : List DirEntry) (l : DirEntry)
      → describe attr_entry raw ≡ Fate.listed l
      → leb max_bytes (used + entry_bytes l) ≡ false
      → collect attr_entry max_bytes (raw ∷ raws) used had
        ≡ collect attr_entry max_bytes raws (used + entry_bytes l) (had ++ l ∷ [])
  unfolding collect
  collect-more raw raws used had l d b = rw (d, b, collect) refl

  -- The entries stand in the page before its last one.
  full-IsCollected :
      (raw : RawDirent) (raws : List RawDirent) (had : List DirEntry) (l : DirEntry)
      → describe attr_entry raw ≡ Fate.listed l
      → HasRoom max_bytes had
      → max_bytes ≤ bytes_of had + entry_bytes l
      → IsCollected (raw ∷ raws) had (Collected.full (had ++ l ∷ []))
  unfolding IsCollected IsListed IsFilled add_listed listed_of
  full-IsCollected raw raws had l d room h = (
    raw ∷ [],
    raws,
    refl,
    ap (λ (x : List DirEntry). had ++ x) (sym (listed_of-cons raw [] (Fate.listed l) d)),
    (omega (arith, h, bytes_of-snoc had l), (had, l, refl, room)),
    (λ n e. cc, tt),
  )

  pub collect-IsCollected :
      (raws : List RawDirent) (used : ℕ) (had : List DirEntry)
      → used ≡ bytes_of had
      → HasRoom max_bytes had
      → IsCollected raws had (collect attr_entry max_bytes raws used had)
  unfolding IsCollected collect listed_of
  collect-IsCollected [] used had u room = (sym (append-nil had), u, room, tt)
  collect-IsCollected (raw ∷ raws) used had u room = elim (Fate-cases (describe attr_entry raw)) [
    | inl (l, d) ↦ elim (Bool-cases (leb max_bytes (used + entry_bytes l))) [
      | inl b ↦
          subst (IsCollected (raw ∷ raws) had) (sym (collect-full raw raws used had l d b))
            (full-IsCollected raw raws had l d room (ground arith))
      | inr b ↦
          let rest =
            collect-IsCollected raws (used + entry_bytes l) (had ++ l ∷ [])
              (omega (arith, u, bytes_of-snoc had l)) (inr (ground (arith, bytes_of-snoc had l))) in
          subst (IsCollected (raw ∷ raws) had) (sym (collect-more raw raws used had l d b))
            (listed-IsCollected raw raws had l _ d rest)
    ]
    | inr (inl d) ↦
        subst (IsCollected (raw ∷ raws) had) (sym (collect-skipped raw raws used had d))
          (skipped-IsCollected raw raws had _ d (collect-IsCollected raws used had u room))
    | inr (inr (n, d)) ↦
        subst (IsCollected (raw ∷ raws) had) (sym (collect-failed raw raws used had n d))
          ([], raw, raws, refl, d, subst (HasRoom max_bytes) (sym (append-nil had)) room, tt)
  ]
