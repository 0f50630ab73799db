-- ===== src/Perf/Histogram.antt =====
-- crates/perf/src/histogram.rs: the buckets of a value. Values are of 64 bits.
use jackalopefs.Common.{
  ℕ, zero, suc, ◌+◌, ◌-◌, ◌*◌, ◌/◌, ◌%◌, ◌^◌, ◌≤◌, ◌<◌, ◌≡◌, ◌⊎◌, refl, ap, Bool-cases, false,
  arith, leb, ltb, if◌then◌else◌, inl, inr,
}
use Prim.Native.Nat.{min}
use native.Mathlib.Decide.{dec_le}
use native.Mathlib.Nat.{pow-zero, pow-suc, div-add-mod, mod-lt}

abbrev pub bucket_count : ℕ
bucket_count = 5 + 4 * 62

-- The position of the highest bit, `63 - leading_zeros`: on fuel, of which 64 is enough.
unfoldable pub log2 : ℕ → ℕ → ℕ
log2 zero x = 0
log2 (suc fuel) x = let rest = suc (log2 fuel (x / 2)) in if ltb x 2 then 0 else rest

-- `bucket`, of `x = v - 1` at least 4.
unfoldable pub bucket_above : ℕ → ℕ
bucket_above x =
    let e = log2 64 x in let quarter = (x / 2 ^ (e - 2)) % 4 in 5 + 4 * (e - 2) + quarter

-- `bucket`.
unfoldable pub bucket : ℕ → ℕ
unfolding bucket_above
bucket v = if leb v 4 then v else bucket_above (v - 1)

-- The end of a quarter, in 128 bits and then cut to 64.
unfoldable pub quarter_end : ℕ → ℕ → ℕ
quarter_end e quarter = min (2 ^ e + (quarter + 1) * 2 ^ (e - 2)) (2 ^ 64 - 1)

-- `upper`.
unfoldable pub upper : ℕ → ℕ
unfolding quarter_end
upper i = if leb i 4 then i else quarter_end ((i - 5) / 4 + 2) ((i - 5) % 4)

log2_bounds :
    (fuel x : ℕ)
    → 0 < x
    → x < 2 ^ fuel
    → (2 ^ log2 fuel x ≤ x) × (x < 2 * 2 ^ log2 fuel x) × (log2 fuel x < fuel)
unfolding log2
log2_bounds zero x p h = absurd (omega (arith, pow-zero 2))
log2_bounds (suc fuel) x p h = elim (Bool-cases (ltb x 2)) [
  | inl small ↦ rw (small, log2) (ground (arith, pow-zero 2))
  | inr big ↦
      let ih = log2_bounds fuel (x / 2) (ground arith) (omega (arith, pow-suc 2 fuel)) in
      rw (big, log2)
        (
          omega (arith, ih, pow-suc 2 (log2 fuel (x / 2))),
          omega (arith, ih, pow-suc 2 (log2 fuel (x / 2))),
          omega (arith, ih),
        )
]

quotient_bounds : (p d r : ℕ) → r < p → 4 * p ≤ p * d + r → p * d + r < 8 * p → (4 ≤ d) × (d < 8)
quotient_bounds p d r h lo hi = (grind arith, grind arith)

-- A number between 4 and 8 times `p` lies in the quarter that the code computes.
quarter_bounds :
    (p x : ℕ)
    → 0 < p
    → 4 * p ≤ x
    → x < 8 * p
    → ((x / p) % 4 < 4) × ((4 + (x / p) % 4) * p ≤ x) × (x < (5 + (x / p) % 4) * p)
quarter_bounds p x pos lo hi =
    let whole : p * (x / p) + x % p ≡ x = div-add-mod x p in
    let less : x % p < p = mod-lt x pos in
    let (d4, d8) = quotient_bounds p (x / p) (x % p) less (omega arith) (omega arith) in
    let d : 4 + (x / p) % 4 ≡ x / p = omega arith in
    let both : (4 + (x / p) % 4) * p ≡ x / p * p = ap (λ (t : ℕ). t * p) d in
    (omega arith, omega arith, omega arith)

-- The highest bit of a number from 4 on is not one of the two lowest.
pow_of_two_more : (e : ℕ) → 2 ≤ e → 2 ^ e ≡ 4 * 2 ^ (e - 2)
pow_of_two_more zero h = absurd (omega arith)
pow_of_two_more (suc zero) h = absurd (omega arith)
pow_of_two_more (suc (suc k)) h =
    let same : suc (suc k) - 2 ≡ k = omega arith in
    rw same (omega (arith, pow-suc 2 (suc k), pow-suc 2 k))

log2-ge : (e x : ℕ) → 4 ≤ x → x < 2 * 2 ^ e → 2 ≤ e
log2-ge zero x h b = absurd (omega (arith, pow-zero 2))
log2-ge (suc zero) x h b = absurd (omega (arith, pow-zero 2, pow-suc 2 0))
log2-ge (suc (suc k)) x h b = omega arith

-- Where the bucket of a value above 4 lies: the quarter `q` above `4 * 2 ^ k`.
bucket_parts :
    (v : ℕ)
    → 4 < v
    → v < 2 ^ 64
    → (k : ℕ) × (q : ℕ) × (bucket v ≡ 5 + 4 * k + q)
      × (q < 4)
      × (k ≤ 61)
      × ((4 + q) * 2 ^ k < v)
      × (v ≤ (5 + q) * 2 ^ k)
unfolding bucket
bucket_parts v h small =
    let e = log2 64 (v - 1) in
    let (low, high, below) = log2_bounds 64 (v - 1) (omega arith) (omega arith) in
    let two = log2-ge e (v - 1) (omega arith) high in
    let four = pow_of_two_more e two in
    let (q4, at, under) =
      quarter_bounds (2 ^ (e - 2)) (v - 1) (omega (arith, four, low)) (omega (arith, four, low))
        (omega (arith, four, high)) in
    (
      e - 2,
      ((v - 1) / 2 ^ (e - 2)) % 4,
      ground arith,
      q4,
      omega (arith, below),
      omega (arith, at),
      omega (arith, under),
    )

upper-at : (k q : ℕ) → q < 4 → upper (5 + 4 * k + q) ≡ min ((5 + q) * 2 ^ k) (2 ^ 64 - 1)
unfolding upper
upper-at k q h =
    let past : leb (5 + 4 * k + q) 4 ≡ false = ground arith in
    let e : (5 + 4 * k + q - 5) / 4 + 2 ≡ suc (suc k) = omega arith in
    let quarter : (5 + 4 * k + q - 5) % 4 ≡ q = omega arith in
    let back : suc (suc k) - 2 ≡ k = omega arith in
    rw (past, upper) (rw (e, quarter) (rw back (omega (arith, pow-suc 2 (suc k), pow-suc 2 k))))

four-lt : (v : ℕ) → 4 < v → upper (5 + 4 * 0 + 0 - 1) < v
unfolding upper
four-lt v h = omega arith

few :
    (v : ℕ)
    → v ≤ 4
    → (bucket v < bucket_count)
      × (v ≤ upper (bucket v))
      × ((bucket v ≡ 0) ⊎ (upper (bucket v - 1) < v))
unfolding bucket upper
few zero h = (omega arith, omega arith, inl refl)
few (suc v) h = (ground arith, ground arith, inr (ground arith))

-- The bucket before is below.
upper_before : (k q v : ℕ) → q < 4 → 4 < v → (4 + q) * 2 ^ k < v → upper (5 + 4 * k + q - 1) < v
upper_before k (suc q) v h big low =
    let same : 5 + 4 * k + suc q - 1 ≡ 5 + 4 * k + q = omega arith in
    rw same (omega (arith, upper-at k q (omega arith)))
upper_before (suc k) zero v h big low =
    let same : 5 + 4 * suc k + 0 - 1 ≡ 5 + 4 * k + 3 = omega arith in
    rw same (omega (arith, upper-at k 3 (omega arith), pow-suc 2 k))
upper_before zero zero v h big low = four-lt v big

-- Every value of 64 bits has a bucket; it is at most the bucket's upper bound, and above the upper
-- bound of the bucket before, if there is one.
pub bucket_lem :
    (v : ℕ)
    → v < 2 ^ 64
    → (bucket v < bucket_count)
      × (v ≤ upper (bucket v))
      × ((bucket v ≡ 0) ⊎ (upper (bucket v - 1) < v))
bucket_lem v small = elim (dec_le v 4) [
  | yes le ↦ few v le
  | no gt ↦
      let (k, q, at, q4, k61, low, high) = bucket_parts v (omega arith) small in
      rw at
        (omega arith, omega (arith, upper-at k q q4), inr (upper_before k q v q4 (omega arith) low))
]
