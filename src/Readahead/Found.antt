-- ===== src/Readahead/Found.antt =====
-- crates/client/src/readahead.rs: the findings of a run that is metered.
use jackalopefs.Common.{
  ℕ, ◌+◌, ◌-◌, ◌*◌, ◌≤◌, ◌<◌, ◌≡◌, ◌⊎◌, inl, inr, sym, ap, subst, ◌∙◌, Bool-cases, true, false,
  List, All, All-map, Option, none, some, some-injective, arith,
}
use jackalopefs.Readahead.Run.{
  RunRead, FindingReadahead, busy_for, is_heavy, is_due, busy_until, finding, report, run_heavy,
  run_largest_min, max_io,
}
use jackalopefs.Readahead.Meter.{Meter, is_found, IsLargest, IsBusy, IsMetered, IsFinding}

-- The time that the run was busy until now is the meter's.
until-IsBusy :
    (busy : ℕ) (o : Option ℕ) (g : Meter) → IsBusy busy o g → busy + busy_for g.at o ≡ g.busy
unfolding IsBusy busy_for
until-IsBusy busy none g c = omega (arith, c.1)
until-IsBusy busy (some since) g c = c.2

found-IsBusy :
    (busy : ℕ) (o : Option ℕ) (g : Meter) (n : ℕ)
    → IsBusy busy o g
    → IsBusy busy o (record g { found = n })
unfolding IsBusy
found-IsBusy busy none g n c = c
found-IsBusy busy (some since) g n c = c

pub unreported-IsMetered :
    (r : RunRead) (g : Meter) → IsMetered r g → IsMetered r (record g { found = g.found + 0 })
unreported-IsMetered r g c = record {
  inflight = c.inflight;
  small = c.small;
  started = c.started;
  past = c.past;
  busy = found-IsBusy r.busy r.busy_since g _ c.busy;
  bounded = c.bounded;
  found = ground (arith, c.found);
  largest = c.largest;
  answered = c.answered;
}

pub reported-IsMetered :
    (r : RunRead) (g : Meter)
    → r.reported ≡ false
    → IsMetered r g
    → IsMetered (record r { reported = true }) (record g { found = g.found + 1 })
reported-IsMetered r g e c = record {
  inflight = c.inflight;
  small = c.small;
  started = c.started;
  past = c.past;
  busy = found-IsBusy r.busy r.busy_since g _ c.busy;
  bounded = c.bounded;
  found = ground (arith, c.found);
  largest = c.largest;
  answered = c.answered;
}

is_due_lem :
    (busy elapsed : ℕ) (r : RunRead)
    → is_due busy elapsed r ≡ true
    → (r.reported ≡ false)
      × (run_heavy ≤ r.bytes)
      × (run_largest_min ≤ r.largest)
      × (r.largest < max_io)
      × (0 < elapsed)
      × (9 * elapsed ≤ 10 * busy)
unfolding is_due is_heavy
is_due_lem busy elapsed r e = ground arith

report_cases :
    (now : ℕ) (r : RunRead)
    → (report now r ≡ (r, none))
      ⊎ ((is_due (busy_until now r) (now - r.started) r ≡ true)
          × (report now r ≡ (record r { reported = true }, some (finding now r))))
unfolding report
report_cases now r = elim (Bool-cases (is_due (busy_until now r) (now - r.started) r)) [
  | inl e ↦ inr (e, ground arith)
  | inr e ↦ inl (ground arith)
]

pub report-IsMetered :
    (r : RunRead) (g : Meter)
    → IsMetered r g
    → IsMetered (report g.at r).0 (record g { found = g.found + is_found (report g.at r).1 })
unfolding is_found
report-IsMetered r g c =
    let P : RunRead × Option FindingReadahead → Type 0 =
      λ x. IsMetered x.0 (record g { found = g.found + is_found x.1 }) in
    elim (report_cases g.at r) [
      | inl e ↦ subst P (sym e) (unreported-IsMetered r g c)
      | inr (due, e) ↦ subst P (sym e) (reported-IsMetered r g (is_due_lem _ _ r due).0 c)
    ]

All-below :
    (n : ℕ) (sizes : List ℕ) → All (λ s. s ≤ n) sizes → n < max_io → All (λ s. s < max_io) sizes
All-below n sizes all capped =
    All-map (λ s. s ≤ n) (λ s. s < max_io) (λ s le. omega (arith, le, capped)) sizes all

pub finding-IsFinding :
    (r : RunRead) (g : Meter)
    → IsMetered r g
    → is_due (busy_until g.at r) (g.at - r.started) r ≡ true
    → IsFinding (finding g.at r) g
unfolding finding busy_until IsLargest
finding-IsFinding r g c due =
    let (unreported, heavy, large, capped, positive, busy) = is_due_lem _ _ r due in
    let elapsed = ap (λ (n : ℕ). g.at - n) c.started in
    let until = until-IsBusy r.busy r.busy_since g c.busy in
    record {
      elapsed = elapsed;
      share = ap (λ (n : ℕ). (n, g.at - r.started)) until;
      positive = positive;
      busy = omega (arith, busy, until);
      bounded = omega (arith, c.bounded, elapsed);
      bytes = c.answered.0;
      heavy = heavy;
      largest = c.largest;
      large = large;
      capped = All-below r.largest g.sizes (c.largest.0) capped;
      latency = ground (arith, c.answered);
      first = ground (arith, c.found);
    }

pub report-IsFinding :
    (r : RunRead) (g : Meter) (f : FindingReadahead)
    → IsMetered r g
    → (report g.at r).1 ≡ some f
    → IsFinding f g
report-IsFinding r g f c e = elim (report_cases g.at r) [
  | inl n ↦ absurd (ground arith)
  | inr (due, s) ↦
      subst (λ (h : FindingReadahead). IsFinding h g)
        (some-injective _ _ (sym (ap (λ x. x.1) s) ∙ e)) (finding-IsFinding r g c due)
]
