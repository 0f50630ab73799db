-- ===== src/Readahead/Metered.antt =====
-- crates/client/src/readahead.rs: that a run is metered, and what its findings say.
use jackalopefs.Common.{
  ℕ, suc, ◌-◌, ◌^◌, ◌≤◌, ◌<◌, ◌≡◌, inl, inr, sym, subst, Bool-cases, some, List, [], ◌∷◌,
  if◌then◌else◌,
}
use jackalopefs.Readahead.Run.{
  RunRead, FindingReadahead, new, continues, begin, send, start, receive, count, end,
}
use jackalopefs.Readahead.Meter.{
  Meter, meter_at, advance, Read, meter_sent, meter_received, step, IsNext, IsHistory, run, run_new,
  IsMetered, IsFinding,
}
use jackalopefs.Readahead.Kept.{
  new-IsMetered, advance-IsMetered, send-IsMetered, begin-IsMetered, receive-IsMetered,
  count-IsMetered,
}
use jackalopefs.Readahead.Found.{report-IsMetered, report-IsFinding}

sent-IsMetered :
    (offset size now : ℕ) (r : RunRead) (g : Meter)
    → g.at ≤ now
    → suc g.out < 2 ^ 32
    → IsMetered r g
    → IsMetered (start offset size now r) (meter_sent (continues offset r) size now g)
unfolding start meter_sent advance
sent-IsMetered offset size now r g le small c =
    let P : RunRead → Meter → Type 0 = λ u h. IsMetered (send offset size now u) h in
    elim (Bool-cases (continues offset r)) [
      | inl e ↦
          subst (λ b. P (if b then r else begin offset now r) (meter_sent b size now g)) (sym e)
            (send-IsMetered offset size r (advance now g) small (advance-IsMetered r g now le c))
      | inr e ↦
          subst (λ b. P (if b then r else begin offset now r) (meter_sent b size now g)) (sym e)
            (send-IsMetered offset size (begin offset now r) (record (meter_at now) { out = g.out })
              small (begin-IsMetered offset now r g c))
    ]

received-IsMetered :
    (bytes took now : ℕ) (r : RunRead) (g : Meter)
    → g.at ≤ now
    → 0 < g.out
    → IsMetered r g
    → IsMetered (count bytes took (receive now r)) (meter_received bytes took now g)
unfolding meter_received advance
received-IsMetered bytes took now r g le p c =
    count-IsMetered bytes took (receive now r)
      (let h = advance now g in record h { out = g.out - 1 })
      (receive-IsMetered r (advance now g) p (advance-IsMetered r g now le c))

step-IsMetered :
    (a : Read) (r : RunRead) (g : Meter)
    → IsNext a g
    → IsMetered r g
    → IsMetered (step a (r, g)).0 (step a (r, g)).1
unfolding step IsNext
step-IsMetered (Read.sent offset size now) r g p c = sent-IsMetered offset size now r g p.0 p.1 c
step-IsMetered (Read.answered bytes took now) r g p c =
    report-IsMetered (count bytes took (receive now r)) (meter_received bytes took now g)
      (received-IsMetered bytes took now r g p.0 p.1 c)

run-from-IsMetered :
    (reads : List Read) (r : RunRead) (g : Meter)
    → IsHistory reads (r, g)
    → IsMetered r g
    → IsMetered (run reads (r, g)).0 (run reads (r, g)).1
unfolding run IsHistory
run-from-IsMetered [] r g h c = c
run-from-IsMetered (a ∷ reads) r g h c =
    run-from-IsMetered reads (step a (r, g)).0 (step a (r, g)).1 h.1 (step-IsMetered a r g h.0 c)

-- Whatever reads are sent and answered, each no earlier than the one before, an answer only to a read
-- that is out, and fewer than 2^32 at once: the run counts the reads that are out; the time from which
-- it holds one to be in flight, with the time before it, makes the time in which a read of the file was
-- out since the run began, which is no longer than the run; and it has had no finding, or one and is
-- marked so. What it holds to be its largest read is the largest that was sent in it, and it counts the
-- reads answered in it, their bytes (both within 64 bits) and the time that they took.
pub run-IsMetered :
    (offset now : ℕ) (reads : List Read)
    → IsHistory reads (new offset now, meter_at now)
    → IsMetered (run_new offset now reads).0 (run_new offset now reads).1
unfolding run_new
run-IsMetered offset now reads h =
    run-from-IsMetered reads (new offset now) (meter_at now) h (new-IsMetered offset now)

-- After such reads, if an answer has a finding, it is the first of the run. The finding gives exactly
-- the time of the run and that in which a read was out, which is at least nine tenths of it and no more
-- than all of it; the bytes answered in the run (within 64 bits), at least 256 MiB; the largest read sent
-- in it, at least 64 KiB, while every read sent in it was below the request cap; and the time that the
-- reads answered took, with how many they were (within 64 bits).
pub end_lem :
    (offset t0 : ℕ) (reads : List Read) (bytes took now : ℕ) (f : FindingReadahead)
    → IsHistory reads (new offset t0, meter_at t0)
    → IsNext (Read.answered bytes took now) (run_new offset t0 reads).1
    → (end bytes took now (run_new offset t0 reads).0).1 ≡ some f
    → IsFinding f (meter_received bytes took now (run_new offset t0 reads).1)
unfolding end IsNext meter_received advance
end_lem offset t0 reads bytes took now f h n e =
    let (r, g) = run_new offset t0 reads in
    report-IsFinding (count bytes took (receive now r)) (meter_received bytes took now g) f
      (received-IsMetered bytes took now r g n.0 n.1 (run-IsMetered offset t0 reads h)) e
