-- ===== src/Matching.antt =====
-- `EventStream::find_matching_jvm_event` and the inner loop of `EventStream::sweep`
-- (jbm/src/lib.rs).
pub mod Find
pub mod Drain
