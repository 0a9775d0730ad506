-- ===== src/Tests/Monitor.antt =====
-- Runs of the loop of `main` (jbm/src/main.rs), and of the profiler's start and stop
-- (jbm/src/async_profiler.rs).
use jbm.Prelude.{
  ◌≡◌, refl, true, false, List, [], ◌∷◌, some, ok, Text, codes, arith, ◌++◌, map, none,
}
use jbm.Monitor.{Tick, Monitor, running, main_loop}
use jbm.Events.{BpfEvent, Pair}
use jbm.Process.Accounts.{record_of, record_in, records_of}
use jbm.Monitor.Accounts.{events_of_ticks, seen_of, main_loop-accounts}
use jbm.Tests.Matching.{blocked, traced}
use jbm.Process.{process, add_all, events_of_polls}
use jbm.Stream.Sweep.{sweep, sweep_all, sweep_tids, sweep_tid}
use jbm.HashMap.{get, insert, remove, store}
use jbm.Matching.Drain.{round, drain}
use jbm.Matching.Find.{find_matching_jvm_event}
use jbm.Provider.Lifecycle.{Host, args, start_provider, exec_profiler_cmd, checked}
use jbm.Tests.Stream.{two_threads, two_threads-IsValid}
use jbm.Tests.Intake.{silent, polls, answers}

abbrev pub quiet : Tick
quiet = record { has_done = false; pid_alive = true; polls = polls; ask = λ _. answers; now = 1300 }

abbrev pub gone : Tick
gone = record quiet { pid_alive = false }

abbrev begin : Monitor silent
begin = record { provider = 0; stream = two_threads; printed = [] }

goes_on : (main_loop silent (quiet ∷ []) begin).1 ≡ running
unfolding main_loop process add_all events_of_polls sweep sweep_all sweep_tids sweep_tid drain round
    find_matching_jvm_event get store insert remove
goes_on = refl

main_loop-accounts_example :
    (added : List BpfEvent) × (seen_of 7 (main_loop silent (quiet ∷ []) begin).0
      ≡ seen_of 7 begin ++ added)
    × (map record_of added ≡ map record_in (records_of 7 (events_of_ticks (quiet ∷ []))))
main_loop-accounts_example =
    main_loop-accounts silent 7 (quiet ∷ []) begin ((λ _. omega arith), tt) two_threads-IsValid
      goes_on

abbrev reported : List Pair
reported = (blocked 7 1000, none) ∷ ((blocked 8 1100, some (traced 7 1200)) ∷ [])

round_pairs :
    process silent polls (λ _. answers) 1300 0 two_threads
    ≡ (0, record { bpf_events = []; event_count = 2; jvm_events = [] }, ok reported)
unfolding process add_all events_of_polls sweep sweep_all sweep_tids sweep_tid drain round
    find_matching_jvm_event get store insert remove
round_pairs = refl

-- The start command fails, with the exit code 1.
abbrev host : Host
host = record {
  tempfile = ok (codes "/tmp/jbm-ap-1");
  open_file = λ path. ok tt;
  spawn = λ command. ok (ok (some 1));
}

-- A host on which every command succeeds.
abbrev pub good_host : Host
good_host = record host { spawn = λ command. ok (ok (some 0)) }

abbrev started : List (List Text)
started = args (codes "/tmp/jbm-ap-1") 100 (codes "start") ∷ []

starts : start_provider good_host 100 true ≡ (started, ok (codes "/tmp/jbm-ap-1"))
unfolding start_provider exec_profiler_cmd checked
starts = refl
