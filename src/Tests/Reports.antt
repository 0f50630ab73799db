-- ===== src/Tests/Reports.antt =====
-- crates/perf/src/lib.rs and crates/perf/src/histogram.rs: values reported and counted.
use jackalopefs.Common.{◌-◌, ◌≤◌, ◌<◌, ◌≡◌, ◌⊎◌, refl, true, some, arith}
use jackalopefs.Perf.Doubling.{doubling_due, climb, climbs}
use jackalopefs.Perf.Histogram.{bucket, upper, bucket_count, bucket_lem}

first_report : doubling_due 9 4 0 ≡ some (true, 8)
unfolding doubling_due climb climbs
first_report = refl

bucket_lem_example :
    (bucket 1000 < bucket_count)
    × (1000 ≤ upper (bucket 1000))
    × ((bucket 1000 ≡ 0) ⊎ (upper (bucket 1000 - 1) < 1000))
bucket_lem_example = bucket_lem 1000 (omega arith)
