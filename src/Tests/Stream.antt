-- ===== src/Tests/Stream.antt =====
-- Sweeps and rounds (jbm/src/lib.rs).
use mathlib.Core.List.{Perm}
use jbm.Prelude.{◌≡◌, refl, [], ◌∷◌, none, some, arith}
use jbm.HashMap.{get, insert, remove, queue, store}
use jbm.Matching.Find.{find_matching_jvm_event}
use jbm.Matching.Drain.{round, drain}
use jbm.Stream.{EventStream, IsValid}
use jbm.Stream.Sweep.{Swept, sweep_all, sweep, sweep_tid, sweep_tids}
use jbm.Stream.Sweep.Valid.{IsSound, sweep_all-IsSound}
use jbm.Stream.Sweep.Accounts.{bpf_of, jvm_of, sweep_all-accounts}
use jbm.Stream.Sweep.Idle.{IsIdle, sweep_all-IsIdle}
use jbm.Tests.Matching.{blocked, traced}

-- Threads 7 and 8 were blocked at nearly the same time, and 7 alone has a trace.
abbrev pub two_threads : EventStream
two_threads = record {
  bpf_events = (7, blocked 7 1000 ∷ []) ∷ ((8, blocked 8 1100 ∷ []) ∷ []);
  event_count = 2;
  jvm_events = (7, traced 7 1200 ∷ []) ∷ [];
}

-- The pair of thread 8 gets the trace of thread 7, and that of thread 7 gets none.
sweep-two_threads :
    sweep 1300 two_threads
    ≡ some (
      record { bpf_events = []; event_count = 2; jvm_events = [] },
      (blocked 7 1000, none) ∷ ((blocked 8 1100, some (traced 7 1200)) ∷ []),
    )
unfolding sweep sweep_all sweep_tids sweep_tid drain round find_matching_jvm_event get store insert
    remove
sweep-two_threads = refl

pub two_threads-IsValid : IsValid two_threads
two_threads-IsValid = record {
  bpf_valid = record {
    distinct = (omega arith, omega arith);
    entries =
        (((λ e. cc), ((refl, omega arith), tt)), (((λ e. cc), ((refl, omega arith), tt)), tt));
  };
  jvm_valid = record {
    distinct = (tt, tt);
    entries = (((λ e. cc), ((refl, omega arith), tt)), tt);
  };
}

sweep_all-accounts_example :
    (w : Swept) × (sweep_all 1300 two_threads ≡ some w)
    × (bpf_of 7 w ≡ queue 7 two_threads.bpf_events)
    × Perm (jvm_of 7 w) (queue 7 two_threads.jvm_events)
sweep_all-accounts_example = sweep_all-accounts 7 1300 two_threads two_threads-IsValid

sweep_all-IsSound_example : (w : Swept) × (sweep_all 1300 two_threads ≡ some w) × IsSound w
sweep_all-IsSound_example = sweep_all-IsSound 1300 two_threads two_threads-IsValid

sweep_all-IsIdle_example : (w : Swept) × (sweep_all 1300 two_threads ≡ some w) × IsIdle 1300 8 w
sweep_all-IsIdle_example = sweep_all-IsIdle 8 1300 two_threads two_threads-IsValid
