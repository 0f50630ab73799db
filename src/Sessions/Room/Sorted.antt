-- ===== src/Sessions/Room/Sorted.antt =====
-- crates/server/src/session.rs: the sessions detached, from the longest to the latest.
use jackalopefs.Common.{
  ℕ, zero, suc, ◌+◌, ◌≤◌, ◌≡◌, inl, inr, refl, subst, Bool, Bool-cases, true, false, not, ◌||◌,
  Option, some, List, [], ◌∷◌, arith, ◌==◌, if◌then◌else◌, length, count_if,
}
use jackalopefs.Sessions.Table.{has, insert_by_at, sort_by_at, take_ids}

-- The entry's session is in the list.
unfoldable pub listed : ℕ → List (ℕ × ℕ) → Bool
listed k [] = false
listed k ((j, b) ∷ es) = if k == j then true else listed k es

-- Every entry has the instant of its session.
abbrev pub AreOf : (ℕ → Option ℕ) → List (ℕ × ℕ) → Type 0
AreOf f [] = Unit {0}
AreOf f ((j, b) ∷ es) = (f j ≡ some b) × AreOf f es

abbrev pub From : ℕ → List (ℕ × ℕ) → Type 0
From lo [] = Unit {0}
From lo ((j, b) ∷ es) = (lo ≤ b) × From lo es

abbrev pub IsSorted : List (ℕ × ℕ) → Type 0
IsSorted [] = Unit {0}
IsSorted ((j, b) ∷ es) = From b es × IsSorted es

From-mono : (lo hi : ℕ) (es : List (ℕ × ℕ)) → lo ≤ hi → From hi es → From lo es
From-mono lo hi [] h f = tt
From-mono lo hi ((j, b) ∷ es) h f = (omega arith, From-mono lo hi es h f.1)

From-insert_by_at :
    (lo id at : ℕ) (es : List (ℕ × ℕ)) → lo ≤ at → From lo es → From lo (insert_by_at (id, at) es)
unfolding insert_by_at
From-insert_by_at lo id at [] h f = (h, tt)
From-insert_by_at lo id at ((j, b) ∷ es) h f = ground (arith, From-insert_by_at lo id at es)

insert_by_at-IsSorted :
    (id at : ℕ) (es : List (ℕ × ℕ)) → IsSorted es → IsSorted (insert_by_at (id, at) es)
unfolding insert_by_at
insert_by_at-IsSorted id at [] s = (tt, tt)
insert_by_at-IsSorted id at ((j, b) ∷ es) s =
    ground (arith, From-mono at b es, From-insert_by_at b id at es, insert_by_at-IsSorted id at es)

pub sort_by_at-IsSorted : (es : List (ℕ × ℕ)) → IsSorted (sort_by_at es)
unfolding sort_by_at
sort_by_at-IsSorted [] = tt
sort_by_at-IsSorted ((id, at) ∷ es) =
    insert_by_at-IsSorted id at (sort_by_at es) (sort_by_at-IsSorted es)

AreOf-insert_by_at :
    (f : ℕ → Option ℕ) (id at : ℕ) (es : List (ℕ × ℕ))
    → f id ≡ some at
    → AreOf f es
    → AreOf f (insert_by_at (id, at) es)
unfolding insert_by_at
AreOf-insert_by_at f id at [] e h = (e, tt)
AreOf-insert_by_at f id at ((j, b) ∷ es) e h = ground (arith, AreOf-insert_by_at f id at es)

pub AreOf-sort_by_at : (f : ℕ → Option ℕ) (es : List (ℕ × ℕ)) → AreOf f es → AreOf f (sort_by_at es)
unfolding sort_by_at
AreOf-sort_by_at f [] h = tt
AreOf-sort_by_at f ((id, at) ∷ es) h =
    AreOf-insert_by_at f id at (sort_by_at es) h.0 (AreOf-sort_by_at f es h.1)

listed-insert_by_at :
    (k id at : ℕ) (es : List (ℕ × ℕ))
    → listed k (insert_by_at (id, at) es) ≡ (k == id || listed k es)
unfolding insert_by_at listed
listed-insert_by_at k id at [] = ground arith
listed-insert_by_at k id at ((j, b) ∷ es) = ground (arith, listed-insert_by_at k id at es)

pub listed-sort_by_at : (k : ℕ) (es : List (ℕ × ℕ)) → listed k (sort_by_at es) ≡ listed k es
unfolding sort_by_at listed
listed-sort_by_at k [] = refl
listed-sort_by_at k ((id, at) ∷ es) =
    ground (arith, listed-insert_by_at k id at (sort_by_at es), listed-sort_by_at k es)

count_if-insert_by_at :
    (p : ℕ × ℕ → Bool) (e : ℕ × ℕ) (es : List (ℕ × ℕ))
    → count_if p (insert_by_at e es) ≡ (if p e then 1 else 0) + count_if p es
unfolding insert_by_at
count_if-insert_by_at p (id, at) [] = refl
count_if-insert_by_at p (id, at) ((j, b) ∷ es) = ground (arith, count_if-insert_by_at p (id, at) es)

pub count_if-sort_by_at :
    (p : ℕ × ℕ → Bool) (es : List (ℕ × ℕ)) → count_if p (sort_by_at es) ≡ count_if p es
unfolding sort_by_at
count_if-sort_by_at p [] = refl
count_if-sort_by_at p (e ∷ es) =
    omega (arith, count_if-insert_by_at p e (sort_by_at es), count_if-sort_by_at p es)

length-insert_by_at : (e : ℕ × ℕ) (es : List (ℕ × ℕ)) → length (insert_by_at e es) ≡ suc (length es)
unfolding insert_by_at
length-insert_by_at (id, at) [] = refl
length-insert_by_at (id, at) ((j, b) ∷ es) = ground (arith, length-insert_by_at (id, at) es)

pub length-sort_by_at : (es : List (ℕ × ℕ)) → length (sort_by_at es) ≡ length es
unfolding sort_by_at
length-sort_by_at [] = refl
length-sort_by_at (e ∷ es) =
    omega (arith, length-insert_by_at e (sort_by_at es), length-sort_by_at es)

-- What lies behind a sorted front is no less.
From-listed :
    (f : ℕ → Option ℕ) (lo k b : ℕ) (es : List (ℕ × ℕ))
    → AreOf f es
    → From lo es
    → listed k es ≡ true
    → f k ≡ some b
    → lo ≤ b
unfolding listed
From-listed f lo k b [] h fr l e = ground arith
From-listed f lo k b ((j, c) ∷ es) h fr l e = elim (Bool-cases (k == j)) [
  | inl same ↦ let at : f j ≡ some b = subst (λ x. f x ≡ some b) (ground arith) e in ground arith
  | inr other ↦ From-listed f lo k b es h.1 fr.1 (ground arith) e
]

pub take_ids-le :
    (f : ℕ → Option ℕ) (n j k a b : ℕ) (es : List (ℕ × ℕ))
    → AreOf f es
    → IsSorted es
    → has j (take_ids n es) ≡ true
    → has k (take_ids n es) ≡ false
    → listed k es ≡ true
    → f j ≡ some a
    → f k ≡ some b
    → a ≤ b
unfolding take_ids has listed
take_ids-le f zero j k a b es h s inside outside l ja kb = ground arith
take_ids-le f (suc n) j k a b [] h s inside outside l ja kb = ground arith
take_ids-le f (suc n) j k a b ((i, c) ∷ es) h s inside outside l ja kb =
    elim (Bool-cases (j == i)) [
      | inl same ↦
          let at : f i ≡ some a = subst (λ x. f x ≡ some a) (ground arith) ja in
          let le : c ≤ b = From-listed f c k b es h.1 s.0 (ground arith) kb in ground arith
      | inr other ↦
          take_ids-le f n j k a b es h.1 s.1 (ground arith) (ground arith) (ground arith) ja kb
    ]

-- What is taken has an instant.
pub take_ids-listed :
    (n j : ℕ) (es : List (ℕ × ℕ)) → has j (take_ids n es) ≡ true → listed j es ≡ true
unfolding take_ids has listed
take_ids-listed zero j es h = ground arith
take_ids-listed (suc n) j [] h = ground arith
take_ids-listed (suc n) j ((i, c) ∷ es) h = ground (arith, take_ids-listed n j es)

-- As many fewer are left as are taken.
pub count_if-take_ids :
    (n : ℕ) (taken : List ℕ) (es : List (ℕ × ℕ))
    → n ≤ length es
    → ((j : ℕ) → has j (take_ids n es) ≡ true → has j taken ≡ true)
    → count_if (λ e. not (has e.0 taken)) es + n ≤ length es
unfolding take_ids has
count_if-take_ids zero taken [] le h = omega arith
count_if-take_ids zero taken (e ∷ es) le h =
    ground (arith, count_if-take_ids zero taken es (omega arith) (λ j x. ground arith))
count_if-take_ids (suc n) taken [] le h = omega arith
count_if-take_ids (suc n) taken ((i, c) ∷ es) le h = ground (
  arith,
  h i (ground arith),
  count_if-take_ids n taken es (omega arith) (λ j x. h j (ground arith)),
)
