-- ===== src/Stream/Clock.antt =====
-- `EventStream::compute_timestamp` (jbm/src/lib.rs). The monotonic clock in nanoseconds and the wall
-- clock in milliseconds are arguments. `none` is the panic of the subtraction of two `Duration`s.
use jbm.Prelude.{
  ℕ, ◌+◌, ◌-◌, ◌*◌, ◌/◌, ◌≤◌, ◌<◌, ◌≡◌, Option, none, some, arith, ltb, sub64, u64, u64_mod,
  if◌then◌else◌,
}

-- Nanoseconds in a millisecond.
abbrev pub nanos : ℕ
nanos = 1000000

unfoldable pub compute_timestamp : ℕ → ℕ → ℕ → Option ℕ
compute_timestamp now_ktime now bpf_ktime =
    let offset = sub64 now_ktime bpf_ktime in
    if ltb (now * nanos) offset then none else some (u64 ((now * nanos - offset) / nanos))

-- The event lies in the past of both clocks.
pub record IsPast (now_ktime now bpf_ktime : ℕ) : Type 0 where
  pub ktime_word : now_ktime < u64_mod
  pub now_word : now < u64_mod
  pub before_ktime : bpf_ktime ≤ now_ktime
  pub after_epoch : now_ktime - bpf_ktime ≤ now * nanos

-- For an event in the past of both clocks the timestamp is the wall clock less the time since the event,
-- rounded down to a millisecond: it is not after `now`, and less than a millisecond before that time.
pub compute_timestamp_lem :
    (now_ktime now bpf_ktime : ℕ)
    → IsPast now_ktime now bpf_ktime
    → (t : ℕ) × (compute_timestamp now_ktime now bpf_ktime ≡ some t)
      × (t * nanos + (now_ktime - bpf_ktime) ≤ now * nanos)
      × (now * nanos < t * nanos + (now_ktime - bpf_ktime) + nanos)
unfolding compute_timestamp
compute_timestamp_lem now_ktime now bpf_ktime h =
    ((now * nanos - (now_ktime - bpf_ktime)) / nanos, ground arith, omega arith, omega arith)

-- The timestamp is never after `now`.
pub compute_timestamp-le :
    (now_ktime now bpf_ktime : ℕ) {t : ℕ}
    → compute_timestamp now_ktime now bpf_ktime ≡ some t
    → t ≤ now
unfolding compute_timestamp
compute_timestamp-le now_ktime now bpf_ktime e = ground arith
