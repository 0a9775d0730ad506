-- ===== src/Tests/Complete.antt =====
-- A block of thread 7 and its Java stack, through the whole of `main` (jbm/src/main.rs); and
-- sweeps (jbm/src/lib.rs).
use jbm.Prelude.{
  ℕ, ◌≡◌, refl, true, false, List, [], ◌∷◌, ◌++◌, map, reverse, Option, some, ok, Text, codes, All,
  arith, Bool-cases, ◌==◌, inl, inr,
}
use jbm.Wire.{encode, decode, le_bytes, of_le_bytes, word, comm}
use jbm.HashMap.{get, insert, remove, store, push_back}
use jbm.Events.{JvmEvent}
use jbm.Stream.{EventStream, IsValid, new, new_with}
use jbm.Stream.Add.{add_bpf_event, bpf_event_of}
use jbm.Stream.Clock.{compute_timestamp}
use jbm.Stream.Sweep.{Swept, sweep, sweep_all, sweep_tids, sweep_tid}
use jbm.Stream.Sweep.Apart.{stream_of, all_blocks, sweep_all-blocks}
use jbm.Matching.Drain.Apart.{Block, pair_of, AreApart}
use jbm.Stream.Sweep.Nearest.{queues, sweep_all-IsNearest}
use jbm.Matching.Drain.{round, drain}
use jbm.Matching.Drain.Fresh.{IsNearest}
use jbm.Matching.Drain.Nearest.{IsRising}
use jbm.Matching.Find.{find_matching_jvm_event}
use jbm.Provider.AsyncProfiler.{async_profiler, fill_queue}
use jbm.Provider.Lifecycle.{start_provider, exec_profiler_cmd, checked}
use jbm.Loader.{new_jbm, load_with_retry, load_bpf, attach_program, open_buffers, open_all}
use jbm.Process.{process, add_all, events_of_polls}
use jbm.System.{single, format_time}
use jbm.Monitor.{Tick, Monitor, target_gone, main_loop}
use jbm.Monitor.Ends.{EndsWith}
use jbm.Program.{ended, main}
use jbm.Program.Complete.{IsComplete, main-IsComplete}
use jbm.Tests.Ebpf.{blocked_event}
use jbm.Tests.Intake.{answers}
use jbm.Tests.Matching.{blocked, traced}
use jbm.Tests.Monitor.{good_host}
use jbm.Tests.Program.{aya, cli}

-- Every line is a trace of thread 7, half a second after its block.
abbrev one_line : Text → Option JvmEvent
one_line line = some (traced 7 1699999998500)

abbrev ticks : List Tick
ticks = tick ∷ (record tick { pid_alive = false } ∷ [])
  where
    tick : Tick
    tick = record {
      has_done = false;
      pid_alive = true;
      polls = some (ok (record { buffers = encode blocked_event ∷ []; read = 1 })) ∷ [];
      ask = λ _. answers;
      now = 1700000000000;
    }

abbrev calls : (async_profiler one_line).State
calls = ((ok (codes "{}") ∷ []) ∷ [], ((omega arith, tt), tt))

abbrev last : Monitor (async_profiler one_line)
last =
    (main_loop (async_profiler one_line) ticks
      (record { provider = calls; stream = new; printed = [] })).0

ends :
    (main (λ bin. good_host) aya (async_profiler one_line) calls true cli ticks).ending
    ≡ ended last target_gone
unfolding main start_provider exec_profiler_cmd checked new_jbm load_with_retry load_bpf
    attach_program open_buffers open_all new_with main_loop process add_all events_of_polls sweep
    sweep_all sweep_tids sweep_tid drain round find_matching_jvm_event get insert remove store
    push_back fill_queue add_bpf_event bpf_event_of compute_timestamp encode decode comm word
    le_bytes of_le_bytes new
ends = refl

main-IsComplete_example :
    (rounds : List Tick) × (left : List Tick) × (ticks ≡ rounds ++ left)
    × IsComplete one_line (format_time (λ t. single t) (λ t pattern. pattern)) 7 calls rounds last
    × EndsWith (async_profiler one_line) left last last target_gone
main-IsComplete_example =
    main-IsComplete one_line (λ t. single t) (λ t pattern. pattern) 7 1700000000000 (omega arith)
      (λ t h. (t, refl)) calls (λ bin. good_host) aya true cli ticks last target_gone
      ((λ n. omega arith), ((λ n. omega arith), tt)) ends (λ f e. cc)

-- The second block takes the trace over from the first.
abbrev twice : EventStream
twice = record {
  bpf_events = (7, blocked 7 1000 ∷ (blocked 7 1100 ∷ [])) ∷ [];
  event_count = 2;
  jvm_events = (7, traced 7 1200 ∷ []) ∷ [];
}

twice-IsValid : IsValid twice
twice-IsValid = record {
  bpf_valid = record {
    distinct = (tt, tt);
    entries = (((λ e. cc), ((refl, omega arith), ((refl, omega arith), tt))), tt);
  };
  jvm_valid = record {
    distinct = (tt, tt);
    entries = (((λ e. cc), ((refl, omega arith), tt)), tt);
  };
}

rising : (k : ℕ) → IsRising (queues twice k)
unfolding get
rising k = elim (Bool-cases (7 == k)) [
  | inl hit ↦ rw hit ((omega arith, tt), (tt, tt))
  | inr miss ↦ rw miss tt
]

sweep_all-IsNearest_example :
    (w : Swept) × (sweep_all 1300 twice ≡ some w) × All (IsNearest (queues twice)) w.ret
sweep_all-IsNearest_example = sweep_all-IsNearest twice 1300 twice-IsValid rising

-- Two blocks of thread 7, with a trace from before them, and one of thread 8.
abbrev threads : List (ℕ × List Block)
threads =
    (
      7,
      record { bpf = blocked 7 1000; stale = traced 7 900 ∷ []; own = traced 7 1200 }
          ∷ (record { bpf = blocked 7 1300; stale = []; own = traced 7 1400 } ∷ []),
    )
    ∷ ((8, record { bpf = blocked 8 2000; stale = []; own = traced 8 2100 } ∷ []) ∷ [])

threads-AreApart : AreApart [] (all_blocks threads)
threads-AreApart = (
  tt,
  (record { old = omega arith; from = omega arith; to = omega arith; in_range = omega arith }),
  (
    omega arith,
    (record { old = tt; from = omega arith; to = omega arith; in_range = omega arith }),
    (
      omega arith,
      (record { old = tt; from = omega arith; to = omega arith; in_range = omega arith }),
      tt,
    ),
  ),
)

sweep_all-blocks_example :
    (sweep 2200 (stream_of 3 threads) ≡ some (stream_of 3 [], map pair_of (all_blocks threads)))
    × (sweep_all 2200 (stream_of 3 threads)
        ≡ some (record {
          stream = stream_of 3 [];
          ret = reverse (map pair_of (all_blocks threads));
          trashed = traced 7 900 ∷ [];
        }))
sweep_all-blocks_example =
    sweep_all-blocks 2200 3 threads ((((λ e. cc), tt)), (tt, tt)) threads-AreApart
