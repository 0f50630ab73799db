-- ===== src/Perf/Doubling.antt =====
-- crates/perf/src/lib.rs: `doubling_due`, when a growing count is reported. A value is a `u64`.
use jackalopefs.Common.{
  ℕ, zero, suc, ◌*◌, ◌^◌, ◌≤◌, ◌<◌, ◌≡◌, ◌⊎◌, inl, inr, refl, ap, Bool, true, false, Option, none,
  some, arith, ltb, leb, if◌then◌else◌, ◌>>=◌,
}
use native.Mathlib.Nat.{pow-zero, pow-suc}
use native.Mathlib.Decide.{dec_lt, dec_le}

-- `checked_mul(2)` on a `u64`.
unfoldable pub checked_double : ℕ → Option ℕ
checked_double n = if ltb (n * 2) (2 ^ 64) then some (n * 2) else none

-- The test of the loop: doubling stays in range, and does not pass the value.
unfoldable pub climbs : ℕ → ℕ → Bool
unfolding checked_double
climbs value threshold = elim (checked_double threshold) [
  | none ↦ false
  | some next ↦ leb next value
]

-- The loop, on fuel; `none` if the fuel runs out.
unfoldable pub climb : ℕ → ℕ → ℕ → Option ℕ
climb zero value threshold = none
climb (suc fuel) value threshold = elim (climbs value threshold) [
  | true ↦ climb fuel value (threshold * 2)
  | false ↦ some threshold
]

-- Whether a value is due, and the threshold reported afterwards. A `u64` doubles 63 times at most.
unfoldable pub doubling_due : ℕ → ℕ → ℕ → Option (Bool × ℕ)
unfolding checked_double
doubling_due value first reported = elim (checked_double reported) [
  | none ↦ some (false, reported)
  | some next ↦
      if ltb value first
      then some (false, reported)
      else if ltb value next
      then some (false, reported)
      else (do threshold ← climb 65 value first; some (true, threshold))
]

-- A threshold is the first one doubled some number of times. This is one that a value has reached and
-- the next has not, unless that is out of range.
abbrev pub IsHighest : ℕ → ℕ → ℕ → Type 0
IsHighest first value t =
    ((k : ℕ) × (t ≡ first * 2 ^ k)) × (t ≤ value) × ((value < t * 2) ⊎ (2 ^ 64 ≤ t * 2))

-- The tests of the loop, by the numbers.
climbs_cases :
    (value t : ℕ)
    → ((climbs value t ≡ true) × (t * 2 ≤ value) × (t * 2 < 2 ^ 64))
      ⊎ ((climbs value t ≡ false) × ((value < t * 2) ⊎ (2 ^ 64 ≤ t * 2)))
unfolding climbs checked_double
climbs_cases value t = elim (dec_lt (t * 2) (2 ^ 64)) [
  | yes p ↦ elim (dec_le (t * 2) value) [
    | yes q ↦ inl (ground arith, q, p)
    | no q ↦ inr (ground arith, inl (omega arith))
  ]
  | no p ↦ inr (ground arith, inr (omega arith))
]

-- With fuel for every doubling the loop ends, at the highest threshold reached.
climb_total :
    (fuel value t : ℕ)
    → 0 < t
    → t ≤ value
    → value < t * 2 ^ fuel
    → (r : ℕ) × (climb fuel value t ≡ some r) × IsHighest t value r
unfolding climb
climb_total zero value t p le h = absurd (omega (arith, pow-zero 2))
climb_total (suc fuel) value t p le h = elim (climbs_cases value t) [
  | inl (e, q, b) ↦
      let (r, done, highest) =
        climb_total fuel value (t * 2) (omega arith) q
          (omega (arith, ap (λ (x : ℕ). t * x) (pow-suc 2 fuel))) in
      (
        r,
        rw (e, climb) done,
        (
          (
            suc highest.0.0,
            omega (arith, highest.0.1, ap (λ (x : ℕ). t * x) (pow-suc 2 highest.0.0)),
          ),
          highest.1,
          highest.2,
        ),
      )
  | inr (e, q) ↦ (t, rw (e, climb) refl, ((0, omega (arith, pow-zero 2)), le, q))
]

-- `doubling_due` always answers. A value below the first threshold, or below twice the one last
-- reported, is not due, and leaves that as it is; nor is any once doubling that is out of range.
-- Any other is due, and what is then reported is the highest threshold that it has reached, of the first
-- and its doublings.
pub doubling_due_lem :
    (value first reported : ℕ)
    → value < 2 ^ 64
    → 0 < first
    → ((doubling_due value first reported ≡ some (false, reported))
        × ((value < first) ⊎ (value < reported * 2) ⊎ (2 ^ 64 ≤ reported * 2)))
      ⊎ ((r : ℕ) × (doubling_due value first reported ≡ some (true, r))
          × (first ≤ value)
          × (reported * 2 ≤ value)
          × IsHighest first value r)
unfolding doubling_due checked_double
doubling_due_lem value first reported in_range positive = elim (dec_lt (reported * 2) (2 ^ 64)) [
  | no p ↦ inl (ground arith, inr (inr (omega arith)))
  | yes p ↦ elim (dec_lt value first) [
    | yes q ↦ inl (ground arith, inl q)
    | no q ↦ elim (dec_lt value (reported * 2)) [
      | yes r ↦ inl (ground arith, inr (inl r))
      | no r ↦
          let (t, done, highest) =
            climb_total 65 value first positive (omega arith) (omega arith) in
          inr (t, ground arith, omega arith, omega arith, highest)
    ]
  ]
]
