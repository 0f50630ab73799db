-- ===== src/Opened/Dead.antt =====
-- crates/client/src/handles.rs: that a dead handle stays dead, and which handles are live.
use jackalopefs.Common.{
  ℕ, zero, suc, ◌≡◌, ◌⊎◌, inl, inr, refl, true, some, List, [], ◌∷◌, ◌++◌, arith, get_elem?,
  get_elem?-append, set, lookup, Above, IsMap, Above-mono, Above-IsMap,
}
use jackalopefs.Opened.Table.{HandleRec, is_dead, mark_dead, live_in, kill_recs}

get_elem?-set_at :
    (xs : List HandleRec) (i j : ℕ) (v : HandleRec)
    → get_elem? (set xs i v) j ≡ get_elem? xs j ⊎ get_elem? (set xs i v) j ≡ some v
get_elem?-set_at [] i j v = inl refl
get_elem?-set_at (x ∷ xs) zero zero v = inr refl
get_elem?-set_at (x ∷ xs) zero (suc j) v = inl refl
get_elem?-set_at (x ∷ xs) (suc i) zero v = inl refl
get_elem?-set_at (x ∷ xs) (suc i) (suc j) v = get_elem?-set_at xs i j v

-- A record more leaves the others as they were.
pub is_dead-append :
    (recs more : List HandleRec) (r : ℕ) → is_dead recs r ≡ true → is_dead (recs ++ more) r ≡ true
unfolding is_dead
is_dead-append recs more r h = grind (arith, get_elem?-append recs more r)

-- Marking never brings a record back.
pub is_dead-mark_dead :
    (recs : List HandleRec) (k r : ℕ) → is_dead recs r ≡ true → is_dead (mark_dead k recs) r ≡ true
unfolding is_dead mark_dead
is_dead-mark_dead recs k r h = grind (arith, get_elem?-set_at recs k r)

pub is_dead-kill_recs :
    (m : List (ℕ × ℕ)) (recs : List HandleRec) (r : ℕ)
    → is_dead recs r ≡ true
    → is_dead (kill_recs m recs) r ≡ true
unfolding kill_recs
is_dead-kill_recs [] recs r h = h
is_dead-kill_recs ((fh, k) ∷ m) recs r h =
    is_dead-kill_recs m (mark_dead k recs) r (is_dead-mark_dead recs k r h)

-- A handle held is dead or live.
pub live_in-lookup :
    (recs : List HandleRec) (m : List (ℕ × ℕ)) (fh r : ℕ)
    → lookup fh m ≡ some r
    → is_dead recs r ≡ true ⊎ lookup fh (live_in recs m) ≡ some r
unfolding live_in
live_in-lookup recs [] fh r e = cc
live_in-lookup recs ((f, k) ∷ m) fh r e = ground (arith, live_in-lookup recs m fh r)

Above-live_in :
    (recs : List HandleRec) (lo : ℕ) (m : List (ℕ × ℕ)) → Above lo m → Above lo (live_in recs m)
unfolding live_in
Above-live_in recs lo [] a = tt
Above-live_in recs lo ((f, k) ∷ m) a =
    ground (arith, Above-live_in recs f m a.1, Above-mono lo f (live_in recs m))

pub live_in-IsMap : (recs : List HandleRec) (m : List (ℕ × ℕ)) → IsMap m → IsMap (live_in recs m)
unfolding live_in
live_in-IsMap recs [] a = tt
live_in-IsMap recs ((f, k) ∷ m) a =
    ground (arith, Above-live_in recs f m a, Above-IsMap f (live_in recs m))
