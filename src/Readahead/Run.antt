-- ===== src/Readahead/Run.antt =====
-- crates/client/src/readahead.rs: `RunRead`, the current run of sequential reads of one open file. An
-- instant and a duration are numbers of nanoseconds; a quotient of an `f64` is the pair of its numbers, and
-- is compared as a rational number.
use jackalopefs.Common.{
  ℕ, ◌+◌, ◌-◌, ◌*◌, ◌%◌, ◌^◌, Bool, true, false, ◌&&◌, Option, none, some, ◌==◌, ltb, leb,
  if◌then◌else◌,
}
use Prim.Native.Nat.{max, min}

abbrev pub max_io : ℕ
max_io = 1048576

abbrev pub run_slack : ℕ
run_slack = 2097152

abbrev pub run_heavy : ℕ
run_heavy = 268435456

abbrev pub run_largest_min : ℕ
run_largest_min = 65536

pub record RunRead : Type 0 where
  pub next : ℕ
  pub started : ℕ
  pub bytes : ℕ
  pub reads : ℕ
  pub waited : ℕ
  pub largest : ℕ
  pub inflight : ℕ
  pub busy_since : Option ℕ
  pub busy : ℕ
  pub reported : Bool

pub record FindingReadahead : Type 0 where
  pub bytes : ℕ
  pub elapsed : ℕ
  pub largest : ℕ
  pub latency_mean : ℕ × ℕ
  pub busy_share : ℕ × ℕ

-- `RunRead::new`.
unfoldable pub new : ℕ → ℕ → RunRead
new offset now = record {
  next = offset;
  started = now;
  bytes = 0;
  reads = 0;
  waited = 0;
  largest = 0;
  inflight = 0;
  busy_since = none;
  busy = 0;
  reported = false;
}

-- `saturating_add` on a `u64`.
unfoldable pub saturating_add : ℕ → ℕ → ℕ
saturating_add a b = min (a + b) (2 ^ 64 - 1)

unfoldable pub continues : ℕ → RunRead → Bool
unfolding saturating_add
continues offset r =
    leb r.next (saturating_add offset run_slack) && leb offset (saturating_add r.next run_slack)

-- A run that begins while reads of the one before are still out.
unfoldable pub begin : ℕ → ℕ → RunRead → RunRead
unfolding new
begin offset now r = record (new offset now) {
  inflight = r.inflight;
  busy_since = if ltb 0 r.inflight then some now else none;
}

-- The last lines of `RunRead::start`.
unfoldable pub send : ℕ → ℕ → ℕ → RunRead → RunRead
unfolding saturating_add
send offset size now r = record r {
  next = max r.next (saturating_add offset size);
  largest = max r.largest size;
  busy_since = if r.inflight == 0 then some now else r.busy_since;
  inflight = (r.inflight + 1) % 2 ^ 32;
}

-- `RunRead::start`.
unfoldable pub start : ℕ → ℕ → ℕ → RunRead → RunRead
unfolding continues begin send
start offset size now r =
    send offset size now (if continues offset r then r else begin offset now r)

-- The time since a read was first in flight, if one is.
unfoldable pub busy_for : ℕ → Option ℕ → ℕ
busy_for now none = 0
busy_for now (some since) = now - since

-- The first lines of `RunRead::end`: one read fewer is in flight.
unfoldable pub receive : ℕ → RunRead → RunRead
unfolding busy_for
receive now r =
    if r.inflight - 1 == 0
    then record r { inflight = 0; busy = r.busy + busy_for now r.busy_since; busy_since = none }
    else record r { inflight = r.inflight - 1 }

unfoldable pub count : ℕ → ℕ → RunRead → RunRead
count bytes took r = record r {
  bytes = (r.bytes + bytes) % 2 ^ 64;
  reads = (r.reads + 1) % 2 ^ 64;
  waited = r.waited + took;
}

unfoldable pub is_heavy : RunRead → Bool
is_heavy r = leb run_heavy r.bytes && leb run_largest_min r.largest && ltb r.largest max_io

-- Whether the finding is due, of a run that was busy so long.
unfoldable pub is_due : ℕ → ℕ → RunRead → Bool
unfolding is_heavy
is_due busy elapsed r = elim r.reported [
  | true ↦ false
  | false ↦ is_heavy r && ltb 0 elapsed && leb (9 * elapsed) (10 * busy)
]

unfoldable pub busy_until : ℕ → RunRead → ℕ
unfolding busy_for
busy_until now r = r.busy + busy_for now r.busy_since

unfoldable pub finding : ℕ → RunRead → FindingReadahead
unfolding busy_until
finding now r = record {
  bytes = r.bytes;
  elapsed = now - r.started;
  largest = r.largest;
  latency_mean = (r.waited, r.reads);
  busy_share = (busy_until now r, now - r.started);
}

-- The last lines of `RunRead::end`.
unfoldable pub report : ℕ → RunRead → RunRead × Option FindingReadahead
unfolding is_due busy_until finding
report now r =
    if is_due (busy_until now r) (now - r.started) r
    then (record r { reported = true }, some (finding now r))
    else (r, none)

-- `RunRead::end`.
unfoldable pub end : ℕ → ℕ → ℕ → RunRead → RunRead × Option FindingReadahead
unfolding receive count report
end bytes took now r = report now (count bytes took (receive now r))
