-- ===== src/Readahead/Kept.antt =====
-- crates/client/src/readahead.rs: that a read that is sent or received keeps a run metered.
use jackalopefs.Common.{
  ℕ, suc, ◌+◌, ◌-◌, ◌^◌, ◌≤◌, ◌<◌, ◌≡◌, refl, sym, List, ◌∷◌, All-map, inl, inr, ap, subst, Option,
  none, some, arith, ◌==◌, ltb, if◌then◌else◌,
}
use Prim.Native.Nat.{max}
use native.Mathlib.Nat.{le_refl}
use native.Mathlib.Decide.{dec_lt}
use jackalopefs.Readahead.Run.{RunRead, new, begin, send, busy_for, receive, count}
use jackalopefs.Readahead.Meter.{Meter, meter_at, advance, IsBusy, IsOneOf, IsLargest, IsMetered}

pub new-IsMetered : (offset now : ℕ) → IsMetered (new offset now) (meter_at now)
unfolding new IsBusy IsLargest
new-IsMetered offset now = record {
  inflight = refl;
  small = omega arith;
  started = refl;
  past = omega arith;
  busy = (refl, refl);
  bounded = omega arith;
  found = refl;
  largest = (tt, refl);
  answered = (refl, refl, refl);
}

-- Time alone keeps a run metered.
advance-IsBusy :
    (busy : ℕ) (o : Option ℕ) (g : Meter) (now : ℕ)
    → g.at ≤ now
    → IsBusy busy o g
    → IsBusy busy o (advance now g)
unfolding advance IsBusy
advance-IsBusy busy none g now le c = ground arith
advance-IsBusy busy (some since) g now le c = ground arith

pub advance-IsMetered :
    (r : RunRead) (g : Meter) (now : ℕ) → g.at ≤ now → IsMetered r g → IsMetered r (advance now g)
unfolding advance
advance-IsMetered r g now le c = record {
  inflight = c.inflight;
  small = c.small;
  started = c.started;
  past = omega (arith, le, c.past);
  busy = advance-IsBusy r.busy r.busy_since g now le c.busy;
  bounded = ground arith;
  found = c.found;
  largest = c.largest;
  answered = c.answered;
}

-- A read more is out.
send-IsBusy :
    (busy : ℕ) (o : Option ℕ) (size : ℕ) (g : Meter)
    → IsBusy busy o g
    → IsBusy busy
        (if g.out == 0 then some g.at else o)
        (record g { out = suc g.out; sizes = size ∷ g.sizes })
unfolding IsBusy
send-IsBusy busy none size g c = ground arith
send-IsBusy busy (some since) size g c = ground arith

-- The larger of the largest size and another one.
IsLargest-max :
    (n size : ℕ) (sizes : List ℕ) → IsLargest n sizes → IsLargest (max n size) (size ∷ sizes)
unfolding IsLargest IsOneOf
IsLargest-max n size sizes l = elim (dec_lt n size) [
  | yes below ↦
      let e : max n size ≡ size = omega arith in
      let all = All-map (λ s. s ≤ n) (λ s. s ≤ size) (λ s le. omega (arith, le, below)) sizes l.0 in
      subst (λ m. IsLargest m (size ∷ sizes)) (sym e) ((le_refl size, all), inl refl)
  | no above ↦
      let e : max n size ≡ n = omega arith in
      subst (λ m. IsLargest m (size ∷ sizes)) (sym e) ((omega (arith, above), l.0), inr l.1)
]

pub send-IsMetered :
    (offset size : ℕ) (r : RunRead) (g : Meter)
    → suc g.out < 2 ^ 32
    → IsMetered r g
    → IsMetered (send offset size g.at r) (record g { out = suc g.out; sizes = size ∷ g.sizes })
unfolding send
send-IsMetered offset size r g small c = record {
  inflight = ground (arith, c.inflight);
  small = small;
  started = c.started;
  past = c.past;
  busy =
      subst
        (λ (n : ℕ).
          IsBusy r.busy (if n == 0 then some g.at else r.busy_since)
            (record g { out = suc g.out; sizes = size ∷ g.sizes }))
        (sym c.inflight) (send-IsBusy r.busy r.busy_since size g c.busy);
  bounded = c.bounded;
  found = c.found;
  largest = IsLargest-max r.largest size g.sizes c.largest;
  answered = c.answered;
}

begin-IsBusy :
    (now : ℕ) (g : Meter)
    → IsBusy 0 (if ltb 0 g.out then some now else none) (record (meter_at now) { out = g.out })
unfolding IsBusy
begin-IsBusy now g = ground arith

-- A run begins at `now`, with the reads out that there are.
pub begin-IsMetered :
    (offset now : ℕ) (r : RunRead) (g : Meter)
    → IsMetered r g
    → IsMetered (begin offset now r) (record (meter_at now) { out = g.out })
unfolding begin new IsLargest
begin-IsMetered offset now r g c = record {
  inflight = c.inflight;
  small = c.small;
  started = refl;
  past = omega arith;
  busy =
      subst
        (λ (n : ℕ).
          IsBusy 0 (if ltb 0 n then some now else none) (record (meter_at now) { out = g.out }))
        (sym c.inflight) (begin-IsBusy now g);
  bounded = omega arith;
  found = refl;
  largest = (tt, refl);
  answered = (refl, refl, refl);
}

-- A read fewer is out.
close-IsBusy :
    (busy : ℕ) (o : Option ℕ) (g : Meter)
    → g.out ≡ 1
    → IsBusy busy o g
    → IsBusy (busy + busy_for g.at o) none (record g { out = g.out - 1 })
unfolding IsBusy busy_for
close-IsBusy busy none g p c = ground arith
close-IsBusy busy (some since) g p c = ground arith

keep-IsBusy :
    (busy : ℕ) (o : Option ℕ) (g : Meter)
    → 1 < g.out
    → IsBusy busy o g
    → IsBusy busy o (record g { out = g.out - 1 })
unfolding IsBusy
keep-IsBusy busy none g p c = ground arith
keep-IsBusy busy (some since) g p c = ground arith

pub close-IsMetered :
    (r : RunRead) (g : Meter)
    → g.out ≡ 1
    → IsMetered r g
    → IsMetered
        (record r { inflight = 0; busy = r.busy + busy_for g.at r.busy_since; busy_since = none })
        (record g { out = g.out - 1 })
close-IsMetered r g p c = record {
  inflight = omega (arith, p);
  small = omega (arith, c.small);
  started = c.started;
  past = c.past;
  busy = close-IsBusy r.busy r.busy_since g p c.busy;
  bounded = c.bounded;
  found = c.found;
  largest = c.largest;
  answered = c.answered;
}

pub keep-IsMetered :
    (r : RunRead) (g : Meter)
    → 1 < g.out
    → IsMetered r g
    → IsMetered (record r { inflight = r.inflight - 1 }) (record g { out = g.out - 1 })
keep-IsMetered r g p c = record {
  inflight = ap (λ (n : ℕ). n - 1) c.inflight;
  small = omega (arith, c.small);
  started = c.started;
  past = c.past;
  busy = keep-IsBusy r.busy r.busy_since g p c.busy;
  bounded = c.bounded;
  found = c.found;
  largest = c.largest;
  answered = c.answered;
}

pub receive-IsMetered :
    (r : RunRead) (g : Meter)
    → 0 < g.out
    → IsMetered r g
    → IsMetered (receive g.at r) (record g { out = g.out - 1 })
unfolding receive
receive-IsMetered r g p c =
    let inflight : r.inflight ≡ g.out = c.inflight in
    elim (dec_lt 1 g.out) [
      | yes q ↦
          subst (λ u. IsMetered u (record g { out = g.out - 1 })) (ground arith)
            (keep-IsMetered r g q c)
      | no q ↦
          subst (λ u. IsMetered u (record g { out = g.out - 1 })) (ground arith)
            (close-IsMetered r g (omega arith) c)
    ]

count-IsBusy :
    (busy : ℕ) (o : Option ℕ) (g : Meter) (bytes took : ℕ)
    → IsBusy busy o g
    → IsBusy busy o
        (record g { answers = suc g.answers; bytes = g.bytes + bytes; waited = g.waited + took })
unfolding IsBusy
count-IsBusy busy none g bytes took c = c
count-IsBusy busy (some since) g bytes took c = c

pub count-IsMetered :
    (bytes took : ℕ) (r : RunRead) (g : Meter)
    → IsMetered r g
    → IsMetered
        (count bytes took r)
        (record g { answers = suc g.answers; bytes = g.bytes + bytes; waited = g.waited + took })
unfolding count
count-IsMetered bytes took r g c = record {
  inflight = c.inflight;
  small = c.small;
  started = c.started;
  past = c.past;
  busy = count-IsBusy r.busy r.busy_since g bytes took c.busy;
  bounded = c.bounded;
  found = c.found;
  largest = c.largest;
  answered = omega (arith, c.answered);
}
