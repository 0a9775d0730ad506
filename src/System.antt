-- ===== src/System.antt =====
-- What the control program asks of the operating system: `pid_alive`, `time_now` and `format_time`
-- (jbm/src/lib.rs), and `has_done` (jbm/src/main.rs). `none` is the panic of an `expect`.
use jbm.Prelude.{
  ℕ, ◌/◌, ◌≤◌, ◌<◌, ◌+◌, ◌*◌, ◌-◌, ◌≡◌, refl, Bool, true, false, Option, none, some, Text, codes,
  u64, u64_mod, arith, ◌==◌,
}
use jbm.Stream.Clock.{nanos, compute_timestamp, compute_timestamp_lem}

-- `kill` is `libc::kill`, on i32 values as bit patterns; signal 0 only asks.
unfoldable pub pid_alive : (kill : ℕ → ℕ → ℕ) → ℕ → Bool
pid_alive kill pid = kill pid 0 == 0

-- `SystemTime::now()`: the nanoseconds since the epoch, or a time before it.
pub data SystemTime : Type 0 where
  since_epoch : ℕ → SystemTime
  before_epoch : SystemTime

unfoldable pub time_now : SystemTime → Option ℕ
time_now before_epoch = none
time_now (since_epoch ns) = some (u64 (ns / nanos))

-- chrono's answer to `timestamp_millis_opt`.
pub data LocalResult (A : Type 0) : Type 0 where
  single : A → LocalResult A
  ambiguous : A → A → LocalResult A
  missing : LocalResult A

module _ {A : Type 0} (timestamp_millis_opt : ℕ → LocalResult A) (format : A → Text → Text) where
  abbrev formatted : LocalResult A → Option Text
  formatted (single t) = some (format t (codes "%Y-%m-%d %H:%M:%S"))
  formatted _ = none

  unfoldable pub format_time : ℕ → Option Text
  format_time timestamp = formatted (timestamp_millis_opt timestamp)

  pub format_time-single :
      (timestamp : ℕ) {d : A}
      → timestamp_millis_opt timestamp ≡ single d
      → (text : Text) × (format_time timestamp ≡ some text)
  unfolding format_time
  format_time-single timestamp {d} e = (format d (codes "%Y-%m-%d %H:%M:%S"), rw e refl)

-- `Poll` of a future, whose result `has_done` does not look at.
pub data Poll (A : Type 0) : Type 0 where
  ready : A → Poll A
  pending : Poll A

unfoldable pub has_done : {A : Type 0} → Poll A → Bool
has_done (ready _) = true
has_done pending = false

-- The timestamp of an event is the time of the wall clock at the event, to within 2 ms and never later.
-- The clocks are read at one moment, the wall clock at `ns` nanoseconds since the epoch, below 2 ^ 64 ms;
-- the event lies in the past of the monotonic clock, and after the epoch by a millisecond.
pub compute_timestamp-near :
    (now_ktime ns bpf_ktime : ℕ)
    → now_ktime < u64_mod
    → ns < u64_mod * nanos
    → bpf_ktime ≤ now_ktime
    → now_ktime - bpf_ktime + nanos ≤ ns
    → (now : ℕ) × (t : ℕ) × (time_now (since_epoch ns) ≡ some now)
      × (compute_timestamp now_ktime now bpf_ktime ≡ some t)
      × (t * nanos + (now_ktime - bpf_ktime) ≤ ns)
      × (ns < t * nanos + (now_ktime - bpf_ktime) + 2 * nanos)
unfolding time_now
compute_timestamp-near now_ktime ns bpf_ktime word ns_word past epoch =
    let now = ns / nanos in
    let (t, made, early, late) = compute_timestamp_lem now_ktime now bpf_ktime (record {
      ktime_word = word;
      now_word = omega arith;
      before_ktime = past;
      after_epoch = omega arith;
    }) in
    (now, t, ground arith, made, omega (arith, early), omega (arith, late))
