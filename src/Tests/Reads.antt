-- ===== src/Tests/Reads.antt =====
-- crates/client/src/readahead.rs: two reads that overlap, and the finding at the end of the second.
use jackalopefs.Common.{refl, List, [], ◌∷◌, arith}
use jackalopefs.Readahead.Run.{
  FindingReadahead, new, continues, saturating_add, start, begin, send, busy_for, receive, count,
  is_heavy, is_due, busy_until, finding, report, end,
}
use jackalopefs.Readahead.Meter.{
  Read, IsHistory, IsNext, run_new, run, step, advance, meter_at, meter_sent, meter_received,
  meter_answered, is_found, IsMetered, IsFinding,
}
use jackalopefs.Readahead.Metered.{run-IsMetered, end_lem}

program : Unit {0}
unfolding IsHistory IsNext run_new run step advance meter_sent meter_received meter_answered
    is_found new continues saturating_add start begin send busy_for receive count is_heavy is_due
    busy_until finding report end
program = tt

abbrev two_reads : List Read
two_reads = Read.sent 0 131072 100 ∷ Read.sent 131072 131072 105 ∷ Read.answered 131072 20 120 ∷ []

abbrev found : FindingReadahead
found = record {
  bytes = 268566528;
  elapsed = 30;
  largest = 131072;
  latency_mean = (45, 2);
  busy_share = (30, 30);
}

two_reads-IsHistory : IsHistory two_reads (new 0 100, meter_at 100)
unfolding program
two_reads-IsHistory =
    ((omega arith, omega arith), ((omega arith, omega arith), ((omega arith, omega arith), tt)))

run-IsMetered_example : IsMetered (run_new 0 100 two_reads).0 (run_new 0 100 two_reads).1
run-IsMetered_example = run-IsMetered 0 100 two_reads two_reads-IsHistory

end_lem_example : IsFinding found (meter_received 268435456 25 130 (run_new 0 100 two_reads).1)
unfolding program
end_lem_example =
    end_lem 0 100 two_reads 268435456 25 130 found two_reads-IsHistory (omega arith, omega arith)
      refl
