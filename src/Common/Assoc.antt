-- ===== src/Common/Assoc.antt =====
-- Maps keyed by native numbers, as association lists in key order.
use Prim.Native.Nat.{ℕ, suc, ◌+◌, ◌≤◌, ◌<◌}
use mathlib.Core.Path.{◌≡◌, refl}
use mathlib.Core.Logic.{◌≢◌, inl, inr}
use mathlib.Core.Bool.{Bool, true, false}
use mathlib.Core.List.{List, [], ◌∷◌, map}
use mathlib.Core.Option.{Option, none, some}
use native.Mathlib.Omega.{arith}
use jackalopefs.Common.Tests.{if◌then◌else◌, ltb, ◌==◌, Bool-cases}
use jackalopefs.Common.Lists.{length, count_if}

module _ {ℓ} {V : Type ℓ} where
  abbrev pub lookup : ℕ → List (ℕ × V) → Option V
  lookup k [] = none
  lookup k ((j, v) ∷ m) = if k == j then some v else lookup k m

  abbrev pub insert : ℕ → V → List (ℕ × V) → List (ℕ × V)
  insert k v [] = (k, v) ∷ []
  insert k v ((j, w) ∷ m) =
      if k == j then (k, v) ∷ m else if ltb k j then (k, v) ∷ (j, w) ∷ m else (j, w) ∷ insert k v m

  abbrev pub erase : ℕ → List (ℕ × V) → List (ℕ × V)
  erase k [] = []
  erase k ((j, w) ∷ m) = if k == j then m else (j, w) ∷ erase k m

  abbrev pub keys : List (ℕ × V) → List ℕ
  keys m = map (λ e. e.0) m

  -- Keys rise along the list, from above `lo`.
  abbrev pub Above : ℕ → List (ℕ × V) → Type 0
  Above lo [] = Unit {0}
  Above lo ((j, w) ∷ m) = (lo < j) × Above j m

  abbrev pub IsMap : List (ℕ × V) → Type 0
  IsMap [] = Unit {0}
  IsMap ((j, w) ∷ m) = Above j m

  pub lookup-insert :
      (k j : ℕ) (v : V) (m : List (ℕ × V))
      → lookup j (insert k v m) ≡ (if j == k then some v else lookup j m)
  lookup-insert k j v [] = refl
  lookup-insert k j v ((i, w) ∷ m) = ground (arith, lookup-insert k j v m)

  pub lookup-erase_ne : (k j : ℕ) (m : List (ℕ × V)) → j ≢ k → lookup j (erase k m) ≡ lookup j m
  lookup-erase_ne k j [] h = refl
  lookup-erase_ne k j ((i, w) ∷ m) h = ground (arith, lookup-erase_ne k j m h)

  pub lookup_below : (lo k : ℕ) (m : List (ℕ × V)) → k ≤ lo → Above lo m → lookup k m ≡ none
  lookup_below lo k [] h a = refl
  lookup_below lo k ((i, w) ∷ m) h a = ground (arith, lookup_below i k m)

  lookup-erase-Above : (lo k : ℕ) (m : List (ℕ × V)) → Above lo m → lookup k (erase k m) ≡ none
  lookup-erase-Above lo k [] a = refl
  lookup-erase-Above lo k ((i, w) ∷ m) a =
      ground (arith, lookup-erase-Above i k m a.1, lookup_below i k m)

  pub lookup-erase_self : (k : ℕ) (m : List (ℕ × V)) → IsMap m → lookup k (erase k m) ≡ none
  lookup-erase_self k [] a = refl
  lookup-erase_self k ((i, w) ∷ m) a = elim (Bool-cases (k == i)) [
    | inl e ↦ rw e (lookup_below i k m (ground arith) a)
    | inr e ↦ rw e (rw e (lookup-erase-Above i k m a))
  ]

  Above-insert :
      (lo k : ℕ) (v : V) (m : List (ℕ × V)) → lo < k → Above lo m → Above lo (insert k v m)
  Above-insert lo k v [] h a = (h, tt)
  Above-insert lo k v ((i, w) ∷ m) h a = ground (arith, Above-insert i k v m)

  pub insert-IsMap : (k : ℕ) (v : V) (m : List (ℕ × V)) → IsMap m → IsMap (insert k v m)
  insert-IsMap k v [] a = tt
  insert-IsMap k v ((i, w) ∷ m) a = ground (arith, Above-insert i k v m)

  pub Above-mono : (lo hi : ℕ) (m : List (ℕ × V)) → lo ≤ hi → Above hi m → Above lo m
  Above-mono lo hi [] h a = tt
  Above-mono lo hi ((i, w) ∷ m) h a = (omega arith, a.1)

  Above-erase : (lo k : ℕ) (m : List (ℕ × V)) → Above lo m → Above lo (erase k m)
  Above-erase lo k [] a = tt
  Above-erase lo k ((i, w) ∷ m) a = ground (arith, Above-erase i k m a.1, Above-mono lo i m)

  pub Above-IsMap : (lo : ℕ) (m : List (ℕ × V)) → Above lo m → IsMap m
  Above-IsMap lo [] a = tt
  Above-IsMap lo ((i, w) ∷ m) a = a.1

  pub erase-IsMap : (k : ℕ) (m : List (ℕ × V)) → IsMap m → IsMap (erase k m)
  erase-IsMap k [] a = tt
  erase-IsMap k ((i, w) ∷ m) a = ground (arith, Above-erase i k m a, Above-IsMap i m a)

  -- A new key adds one to the counts that its value passes, an erased one takes one away.
  pub count_if-insert :
      (p : V → Bool) (k : ℕ) (v : V) (m : List (ℕ × V))
      → lookup k m ≡ none
      → count_if (λ e. p e.1) (insert k v m) ≡ (if p v then 1 else 0) + count_if (λ e. p e.1) m
  count_if-insert p k v [] h = refl
  count_if-insert p k v ((i, w) ∷ m) h = ground (arith, count_if-insert p k v m)

  pub count_if-erase :
      (p : V → Bool) (k : ℕ) (v : V) (m : List (ℕ × V))
      → lookup k m ≡ some v
      → count_if (λ e. p e.1) (erase k m) + (if p v then 1 else 0) ≡ count_if (λ e. p e.1) m
  count_if-erase p k v [] h = cc
  count_if-erase p k v ((i, w) ∷ m) h = ground (arith, count_if-erase p k v m)

  pub length-insert_new :
      (k : ℕ) (v : V) (m : List (ℕ × V))
      → lookup k m ≡ none
      → length (insert k v m) ≡ suc (length m)
  length-insert_new k v [] h = refl
  length-insert_new k v ((i, w) ∷ m) h = ground (arith, length-insert_new k v m)

  pub length-erase :
      (k : ℕ) (v : V) (m : List (ℕ × V)) → lookup k m ≡ some v → suc (length (erase k m)) ≡ length m
  length-erase k v [] h = cc
  length-erase k v ((i, w) ∷ m) h = ground (arith, length-erase k v m)

module _ {ℓ} {V : Type ℓ} where
  -- The value under a key changes, if there is one.
  abbrev pub alter : ℕ → (V → V) → List (ℕ × V) → List (ℕ × V)
  alter k f [] = []
  alter k f ((j, w) ∷ m) = if k == j then (j, f w) ∷ m else (j, w) ∷ alter k f m

  abbrev pub is_key : ℕ → List (ℕ × V) → Bool
  is_key k m = elim (lookup k m) [ none ↦ false | some v ↦ true ]

  abbrev pub map_some : (V → V) → Option V → Option V
  map_some f none = none
  map_some f (some v) = some (f v)

  pub lookup-alter :
      (k j : ℕ) (f : V → V) (m : List (ℕ × V))
      → lookup j (alter k f m) ≡ (if j == k then map_some f (lookup j m) else lookup j m)
  lookup-alter k j f [] = ground arith
  lookup-alter k j f ((i, w) ∷ m) = ground (arith, lookup-alter k j f m)

  Above-alter : (lo k : ℕ) (f : V → V) (m : List (ℕ × V)) → Above lo m → Above lo (alter k f m)
  Above-alter lo k f [] a = tt
  Above-alter lo k f ((i, w) ∷ m) a = ground (arith, Above-alter i k f m)

  pub alter-IsMap : (k : ℕ) (f : V → V) (m : List (ℕ × V)) → IsMap m → IsMap (alter k f m)
  alter-IsMap k f [] a = tt
  alter-IsMap k f ((i, w) ∷ m) a = ground (arith, Above-alter i k f m)
