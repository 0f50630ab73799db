-- ===== src/Dirents/Described.antt =====
-- crates/server/src/dirents.rs: the entries of a directory, by its records and what the system says of
-- each.
use jackalopefs.Common.{
  ℕ, ◌≡◌, ◌≢◌, ◌⊎◌, inl, inr, refl, subst, true, false, Bool-cases, none, some, List, [], ◌∷◌,
  arith, ◌||◌, ◌==◌, All,
}
use jackalopefs.Proto.Types.{Attr, DirEntry}
use jackalopefs.Proto.Path.{
  Named, ErrorName, IsName, new_name, is_dots, new_name_lem, is_dots-no_dots,
}
use jackalopefs.Dirents.Parse.{RawDirent}
use jackalopefs.Dirents.Page.{Described, Fate, entry, entry_failure, describe}
use jackalopefs.Dirents.Collected.{add_listed, listed_of, IsListed}

abbrev pub IsDots : List ℕ → Type 0
IsDots name = (name ≡ 0x2e ∷ []) ⊎ (name ≡ 0x2e ∷ 0x2e ∷ [])

-- An errno of a resource that ran out: ENFILE, EMFILE and ENOMEM.
abbrev pub IsShort : ℕ → Type 0
IsShort e = (e ≡ 23) ⊎ (e ≡ 24) ⊎ (e ≡ 12)

is_dots-IsDots : (name : List ℕ) → is_dots name ≡ true → IsDots name
unfolding is_dots
is_dots-IsDots [] h = cc
is_dots-IsDots (a ∷ []) h = inl (ground arith)
is_dots-IsDots (a ∷ b ∷ []) h = inr (ground arith)
is_dots-IsDots (a ∷ b ∷ c ∷ bs) h = cc

not-IsDots : (name : List ℕ) → is_dots name ≡ false → ¬ IsDots name
not-IsDots name h (inl one) = (is_dots-no_dots name h).0 one
not-IsDots name h (inr two) = (is_dots-no_dots name h).1 two

module _ (attr_entry : RawDirent → Described) where
  -- The entry of a record: the dots have no attributes, any other those that the system gives.
  abbrev pub IsEntry : RawDirent → DirEntry → Type 0
  IsEntry raw d =
      (d.next_offset ≡ raw.off)
      × (d.name ≡ raw.name)
      × ((IsDots raw.name × (d.attr ≡ none))
          ⊎ ((a : Attr) × (¬ IsDots raw.name)
              × IsName raw.name
              × (attr_entry raw ≡ Described.ok a)
              × (d.attr ≡ some a)))

  -- A record with no entry: its name is not one, or the system does not describe it, though it is short
  -- of no resource.
  abbrev pub IsLeftOut : RawDirent → Type 0
  IsLeftOut raw =
      (¬ IsDots raw.name)
      × ((¬ IsName raw.name) ⊎ ((e : ℕ) × (attr_entry raw ≡ Described.err e) × (¬ IsShort e)))

  -- A record that the system could not describe for want of a resource.
  abbrev pub IsFailed : RawDirent → ℕ → Type 0
  IsFailed raw e =
      (¬ IsDots raw.name) × IsName raw.name × (attr_entry raw ≡ Described.err e) × IsShort e

  -- The entries of the records, in order, without those left out.
  unfoldable pub AreEntries : List RawDirent → List DirEntry → Type 0
  AreEntries [] es = es ≡ []
  AreEntries (raw ∷ raws) es =
      (IsLeftOut raw × AreEntries raws es)
      ⊎ ((d : DirEntry) × (rest : List DirEntry) × (es ≡ d ∷ rest)
          × IsEntry raw d
          × AreEntries raws rest)

  Fate-IsDescribed : RawDirent → Fate → Type 0
  Fate-IsDescribed raw (Fate.listed d) = IsEntry raw d
  Fate-IsDescribed raw Fate.skipped = IsLeftOut raw
  Fate-IsDescribed raw (Fate.failed e) = IsFailed raw e

  failure-IsDescribed :
      (raw : RawDirent) (e : ℕ)
      → ¬ IsDots raw.name
      → IsName raw.name
      → attr_entry raw ≡ Described.err e
      → Fate-IsDescribed raw (entry_failure e)
  unfolding Fate-IsDescribed entry_failure
  failure-IsDescribed raw e n name is = elim (Bool-cases (e == 24 || e == 23 || e == 12)) [
    | inl short ↦
        subst (Fate-IsDescribed raw) {x = Fate.failed e} (rw short refl) (n, name, is, ground arith)
    | inr other ↦
        subst (Fate-IsDescribed raw) {x = Fate.skipped} (rw other refl)
          (n, inr (e, is, λ s. ground arith))
  ]

  describe_dots :
      (raw : RawDirent) → is_dots raw.name ≡ true → entry raw none ≡ describe attr_entry raw
  unfolding describe
  describe_dots raw dots = rw (dots, describe) refl

  describe_unnamed :
      (raw : RawDirent) (x : ErrorName)
      → is_dots raw.name ≡ false
      → new_name raw.name ≡ Named.err x
      → Fate.skipped ≡ describe attr_entry raw
  unfolding describe new_name
  describe_unnamed raw x dots err = ground arith

  describe_named :
      (raw : RawDirent) (kept : List ℕ) (f : Fate)
      → is_dots raw.name ≡ false
      → new_name raw.name ≡ Named.ok kept
      → (elim (attr_entry raw) [
        | Described.err e ↦ entry_failure e
        | Described.ok attr ↦ entry raw (some attr)
      ])
        ≡ f
      → f ≡ describe attr_entry raw
  unfolding describe new_name
  describe_named raw kept f dots named is = ground arith

  described_named :
      (raw : RawDirent) (kept : List ℕ) (answer : Described)
      → ¬ IsDots raw.name
      → is_dots raw.name ≡ false
      → IsName raw.name
      → new_name raw.name ≡ Named.ok kept
      → attr_entry raw ≡ answer
      → Fate-IsDescribed raw (describe attr_entry raw)
  unfolding entry Fate-IsDescribed
  described_named raw kept (Described.ok a) n dots name named is =
      subst (Fate-IsDescribed raw)
        (describe_named raw kept (entry raw (some a)) dots named (rw is refl))
        (refl, refl, inr (a, n, name, is, refl))
  described_named raw kept (Described.err e) n dots name named is =
      subst (Fate-IsDescribed raw)
        (describe_named raw kept (entry_failure e) dots named (rw is refl))
        (failure-IsDescribed raw e n name is)

  described :
      (raw : RawDirent) (named : Named)
      → is_dots raw.name ≡ false
      → new_name raw.name ≡ named
      → Fate-IsDescribed raw (describe attr_entry raw)
  unfolding Fate-IsDescribed
  described raw (Named.err x) dots is =
      subst (Fate-IsDescribed raw) (describe_unnamed raw x dots is)
        (not-IsDots raw.name dots, inl (λ n. ground (arith, is, (new_name_lem raw.name).1 n)))
  described raw (Named.ok kept) dots is =
      described_named raw kept (attr_entry raw) (not-IsDots raw.name dots) dots
        ((new_name_lem raw.name).0 kept is).1 is refl

  describe-IsDescribed : (raw : RawDirent) → Fate-IsDescribed raw (describe attr_entry raw)
  unfolding Fate-IsDescribed entry
  describe-IsDescribed raw = elim (Bool-cases (is_dots raw.name)) [
    | inl dots ↦
        subst (Fate-IsDescribed raw) (describe_dots raw dots)
          (refl, refl, inl (is_dots-IsDots raw.name dots, refl))
    | inr other ↦ described raw (new_name raw.name) other refl
  ]

  -- The entries that the loop lists are those of the records.
  cons-AreEntries :
      (raw : RawDirent) (raws : List RawDirent) (f : Fate)
      → Fate-IsDescribed raw f
      → ((n : ℕ) → f ≢ Fate.failed n)
      → AreEntries raws (listed_of attr_entry raws)
      → AreEntries (raw ∷ raws) (add_listed f (listed_of attr_entry raws))
  unfolding AreEntries add_listed Fate-IsDescribed
  cons-AreEntries raw raws (Fate.listed d) h ok rest =
      inr (d, listed_of attr_entry raws, refl, h, rest)
  cons-AreEntries raw raws Fate.skipped h ok rest = inl (h, rest)
  cons-AreEntries raw raws (Fate.failed n) h ok rest = absurd (ok n refl)

  pub listed_of-AreEntries :
      (raws : List RawDirent)
      → All (IsListed attr_entry) raws
      → AreEntries raws (listed_of attr_entry raws)
  unfolding AreEntries listed_of IsListed
  listed_of-AreEntries [] h = refl
  listed_of-AreEntries (raw ∷ raws) h =
      cons-AreEntries raw raws (describe attr_entry raw) (describe-IsDescribed raw) h.0
        (listed_of-AreEntries raws h.1)

  pub failed-IsFailed :
      (raw : RawDirent) (e : ℕ) → describe attr_entry raw ≡ Fate.failed e → IsFailed raw e
  unfolding Fate-IsDescribed
  failed-IsFailed raw e is = subst (Fate-IsDescribed raw) is (describe-IsDescribed raw)
