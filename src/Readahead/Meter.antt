-- ===== src/Readahead/Meter.antt =====
-- crates/client/src/readahead.rs: a meter that adds up the times of a run read by read, as reads
-- are sent and answered.
use jackalopefs.Common.{
  ℕ, suc, ◌+◌, ◌-◌, ◌*◌, ◌^◌, ◌≤◌, ◌<◌, ◌≡◌, Bool, true, false, Option, none, some, List, [], ◌∷◌,
  ◌==◌, if◌then◌else◌, ◌%◌, ◌⊎◌, All,
}
use jackalopefs.Readahead.Run.{
  RunRead, FindingReadahead, new, continues, start, end, run_heavy, run_largest_min, max_io,
}

-- A run by what happened in it: when it began, the time now, the reads out, how long one was, and the
-- findings; the sizes asked for by the reads sent in it, the last first; and of the reads answered in it
-- how many there were, the bytes that they gave, and the time that they took.
pub record Meter : Type 0 where
  pub since : ℕ
  pub at : ℕ
  pub out : ℕ
  pub busy : ℕ
  pub found : ℕ
  pub sizes : List ℕ
  pub answers : ℕ
  pub bytes : ℕ
  pub waited : ℕ

abbrev pub meter_at : ℕ → Meter
meter_at now = record {
  since = now;
  at = now;
  out = 0;
  busy = 0;
  found = 0;
  sizes = [];
  answers = 0;
  bytes = 0;
  waited = 0;
}

-- One of the sizes, or 0.
unfoldable pub IsOneOf : ℕ → List ℕ → Type 0
IsOneOf n [] = n ≡ 0
IsOneOf n (s ∷ sizes) = (n ≡ s) ⊎ IsOneOf n sizes

-- The greatest of the sizes, or 0 if there is none.
unfoldable pub IsLargest : ℕ → List ℕ → Type 0
unfolding IsOneOf
IsLargest n sizes = All (λ s. s ≤ n) sizes × IsOneOf n sizes

-- Time passes until `now`, with the reads out that there are.
unfoldable pub advance : ℕ → Meter → Meter
advance now g = record g { at = now; busy = if g.out == 0 then g.busy else g.busy + (now - g.at) }

pub data Read : Type 0 where
  sent : (offset : ℕ) → (size : ℕ) → (now : ℕ) → Read
  answered : (bytes : ℕ) → (took : ℕ) → (now : ℕ) → Read

unfoldable pub is_found : Option FindingReadahead → ℕ
is_found none = 0
is_found (some f) = 1

unfoldable pub meter_sent : Bool → ℕ → ℕ → Meter → Meter
unfolding advance
meter_sent true size now g =
    let h = advance now g in record h { out = suc g.out; sizes = size ∷ g.sizes }
meter_sent false size now g = record (meter_at now) { out = suc g.out; sizes = size ∷ [] }

-- Before the run is looked at for a finding.
unfoldable pub meter_received : ℕ → ℕ → ℕ → Meter → Meter
unfolding advance
meter_received bytes took now g =
    let h = advance now g in
    record h {
      out = g.out - 1;
      answers = suc g.answers;
      bytes = g.bytes + bytes;
      waited = g.waited + took;
    }

unfoldable pub meter_answered : Option FindingReadahead → ℕ → ℕ → ℕ → Meter → Meter
unfolding meter_received is_found
meter_answered f bytes took now g =
    let h = meter_received bytes took now g in record h { found = g.found + is_found f }

unfoldable pub step : Read → RunRead × Meter → RunRead × Meter
unfolding start end continues meter_sent meter_answered
step (Read.sent offset size now) (r, g) =
    (start offset size now r, meter_sent (continues offset r) size now g)
step (Read.answered bytes took now) (r, g) =
    let (u, f) = end bytes took now r in (u, meter_answered f bytes took now g)

-- A read is sent or answered no earlier than what came before; an answer is of a read that is out, of
-- which there are fewer than 2^32.
unfoldable pub IsNext : Read → Meter → Type 0
IsNext (Read.sent offset size now) g = (g.at ≤ now) × (suc g.out < 2 ^ 32)
IsNext (Read.answered bytes took now) g = (g.at ≤ now) × (0 < g.out)

unfoldable pub IsHistory : List Read → RunRead × Meter → Type 0
unfolding IsNext step
IsHistory [] s = Unit {0}
IsHistory (a ∷ reads) s = IsNext a s.1 × IsHistory reads (step a s)

unfoldable pub run : List Read → RunRead × Meter → RunRead × Meter
unfolding step
run [] s = s
run (a ∷ reads) s = run reads (step a s)

-- While a read is in flight, the time of the run without one is over from an instant on; the time before
-- it is counted.
unfoldable pub IsBusy : ℕ → Option ℕ → Meter → Type 0
IsBusy busy none g = (g.out ≡ 0) × (busy ≡ g.busy)
IsBusy busy (some since) g = (0 < g.out) × (since ≤ g.at) × (busy + (g.at - since) ≡ g.busy)

pub record IsMetered (r : RunRead) (g : Meter) : Type 0 where
  pub inflight : r.inflight ≡ g.out
  pub small : g.out < 2 ^ 32
  pub started : r.started ≡ g.since
  pub past : g.since ≤ g.at
  pub busy : IsBusy r.busy r.busy_since g
  pub bounded : g.busy ≤ g.at - g.since
  pub found : g.found ≡ (if r.reported then 1 else 0)
  pub largest : IsLargest r.largest g.sizes
  pub answered :
      (r.bytes ≡ g.bytes % 2 ^ 64) × (r.reads ≡ g.answers % 2 ^ 64) × (r.waited ≡ g.waited)

-- A run of an open file, metered.
unfoldable pub run_new : ℕ → ℕ → List Read → RunRead × Meter
unfolding run
run_new offset now reads = run reads (new offset now, meter_at now)

-- What a finding says of its run.
pub record IsFinding (f : FindingReadahead) (g : Meter) : Type 0 where
  pub elapsed : f.elapsed ≡ g.at - g.since
  pub share : f.busy_share ≡ (g.busy, f.elapsed)
  pub positive : 0 < f.elapsed
  pub busy : 9 * f.elapsed ≤ 10 * g.busy
  pub bounded : g.busy ≤ f.elapsed
  pub bytes : f.bytes ≡ g.bytes % 2 ^ 64
  pub heavy : run_heavy ≤ f.bytes
  pub largest : IsLargest f.largest g.sizes
  pub large : run_largest_min ≤ f.largest
  pub capped : All (λ s. s < max_io) g.sizes
  pub latency : f.latency_mean ≡ (g.waited, g.answers % 2 ^ 64)
  pub first : g.found ≡ 0
