-- ===== src/Perf.antt =====
-- crates/perf/src: what a client and a server share to measure themselves.
pub mod Doubling
pub mod Histogram
