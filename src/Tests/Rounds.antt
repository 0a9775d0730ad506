-- ===== src/Tests/Rounds.antt =====
-- Rounds that fail, that wait, and that read traces (jbm/src/lib.rs, jbm/src/main.rs).
use mathlib.Core.List.{Perm}
use jbm.Prelude.{
  ℕ, ◌+◌, ◌*◌, ◌-◌, ◌≡◌, ◌<◌, ◌≤◌, ◌⊎◌, refl, true, false, List, [], ◌∷◌, ◌++◌, Option, some,
  Result, ok, err, Text, codes, arith, All, map,
}
use jbm.Common.{BlockEvent}
use jbm.Wire.{encode, decode, le_bytes, of_le_bytes, word, comm, IsWellSized}
use jbm.HashMap.{get, insert, remove, store, push_back}
use jbm.Events.{JvmEvent, BpfEvent}
use jbm.Stream.{EventStream}
use jbm.Stream.Add.{Answers, error, add_bpf_event, bpf_event_of}
use jbm.Stream.Clock.{compute_timestamp, nanos}
use jbm.Stream.Sweep.{sweep, sweep_all, sweep_tids, sweep_tid}
use jbm.Matching.Drain.{round, drain}
use jbm.Matching.Find.{find_matching_jvm_event}
use jbm.Provider.AsyncProfiler.{async_profiler, fill_queue}
use jbm.Process.{Poll, process, add_all, events_of_polls}
use jbm.Process.Accounts.{reported_of}
use jbm.Process.Errors.{AddFails, FillFails, process-failure}
use jbm.Process.Kernel3x.{Added, signals, failures, unreached, process_3x, process_3x-signals}
use jbm.Process.Traces.{traces_in}
use jbm.Monitor.{Tick, Monitor, running, main_loop}
use jbm.Monitor.Laws.{IsSound}
use jbm.Monitor.Output.{IsUpTo, shown, print_texts, main_loop-print_texts}
use jbm.Report.{report_text}
use jbm.Monitor.Ends.{Ends}
use jbm.Monitor.Expired.{main_loop-prints_expired}
use jbm.Monitor.Traces.{traces_read, discarded_by, main_loop-traces}
use jbm.System.{single, format_time, since_epoch, time_now, compute_timestamp-near}
use jbm.Ebpf.Probe.History.{run}
use jbm.Ebpf.Probe.Sizes.{AreSized}
use jbm.EndToEnd.{records, records-decode}
use jbm.Tests.Matching.{blocked, traced}
use jbm.Tests.Ebpf.{small_map, config, boot, history, blocked_event, switch-IsSized, boot_empty}
use jbm.Tests.Stream.{two_threads, two_threads-IsValid}
use jbm.Tests.Intake.{silent, polls, answers}

-- Every line is a trace of thread 7.
abbrev one_line : Text → Option JvmEvent
one_line line = some (traced 7 1050)

abbrev tick : Tick
tick = record { has_done = false; pid_alive = true; polls = polls; ask = λ _. answers; now = 31050 }

abbrev reading : Monitor (async_profiler one_line)
reading = record {
  provider = ((ok (codes "{}") ∷ []) ∷ [], ((omega arith, tt), tt));
  stream = two_threads;
  printed = [];
}

reads_on : (main_loop (async_profiler one_line) (tick ∷ []) reading).1 ≡ running
unfolding main_loop process add_all events_of_polls sweep sweep_all sweep_tids sweep_tid drain round
    find_matching_jvm_event get store insert remove push_back fill_queue
reads_on = refl

main_loop-traces_example :
    let last = (main_loop (async_profiler one_line) (tick ∷ []) reading).0 in
    Perm (traces_in 7 (discarded_by one_line 7 (tick ∷ []) reading) last.printed last.stream) (
      traces_in 7 [] reading.printed reading.stream
      ++ traces_read one_line 7 (tick ∷ []) (reading.provider).0)
main_loop-traces_example =
    main_loop-traces one_line 7 (tick ∷ []) reading ((λ _. omega arith), tt) two_threads-IsValid
      reads_on

abbrev waiting : Monitor silent
waiting = record { provider = 0; stream = two_threads; printed = [] }

goes_on : (main_loop silent (tick ∷ []) waiting).1 ≡ running
unfolding main_loop process add_all events_of_polls sweep sweep_all sweep_tids sweep_tid drain round
    find_matching_jvm_event get store insert remove
goes_on = refl

main_loop-prints_expired_example :
    (more : List BpfEvent) × (reported_of 7 (main_loop silent (tick ∷ []) waiting).0.printed
      ≡ reported_of 7 waiting.printed ++ ((blocked 7 1000 ∷ []) ++ more))
unfolding get
main_loop-prints_expired_example =
    main_loop-prints_expired silent 7 tick [] waiting (blocked 7 1000 ∷ []) [] (λ _. omega arith)
      (omega arith) two_threads-IsValid refl (omega arith, tt) goes_on

waiting-IsSound : IsSound waiting
waiting-IsSound = record { valid = two_threads-IsValid; windows = tt }

waiting-IsUpTo : IsUpTo 1700000000000 waiting
waiting-IsUpTo = record {
  waiting = record {
    distinct = (omega arith, omega arith);
    entries = (((λ e. cc), (omega arith, tt)), (((λ e. cc), (omega arith, tt)), tt));
  };
  printed = tt;
}

-- Each time is shown as the pattern.
abbrev show_time : ℕ → Option Text
show_time = format_time (λ t. single t) (λ t pattern. pattern)

main_loop-print_texts_example :
    let pairs = (main_loop silent (tick ∷ []) waiting).0.printed in
    print_texts show_time pairs ≡ (map (report_text (shown show_time)) pairs, true)
main_loop-print_texts_example =
    main_loop-print_texts silent 1700000000000 (λ t. single t) (λ t pattern. pattern) (tick ∷ [])
      waiting (omega arith) (λ t h. (t, refl)) ((λ n. omega arith), tt) waiting-IsSound
      waiting-IsUpTo

-- The stack of the record has been dropped from its map.
abbrev stackless : Answers
stackless = record answers { get_stack = λ id. err (codes "lost") }

abbrev one_record : List (Option (Result Poll Text))
one_record = some (ok (record { buffers = encode blocked_event ∷ []; read = 1 })) ∷ []

fails_round :
    process silent one_record (λ _. stackless) 1300 0 two_threads
    ≡ (0, two_threads, err (error (codes "lost")))
unfolding process add_all events_of_polls add_bpf_event bpf_event_of compute_timestamp encode decode
    comm word le_bytes of_le_bytes
fails_round = refl

process-failure_example :
    ((◌≡◌ {A = ℕ} 0 0)
      × ((done : List BlockEvent) × AddFails
            (λ _. stackless)
            0
            (events_of_polls one_record)
            two_threads
            two_threads
            (error (codes "lost"))
            done))
    ⊎ ((one : EventStream) × (add_all (λ _. stackless) 0 (events_of_polls one_record) two_threads
          ≡ (one, ok tt))
        × FillFails silent 0 0 one two_threads (error (codes "lost")))
process-failure_example =
    process-failure silent one_record (λ _. stackless) 1300 0 0 two_threads two_threads
      (error (codes "lost")) (λ _. omega arith) two_threads-IsValid fails_round

-- The thread has ended: ESRCH.
abbrev no_thread : ℕ → ℕ → ℕ
no_thread pid signal = 4294967295

process_3x-signals_example :
    let events = events_of_polls one_record in
    let (r, sent) = process_3x no_thread silent one_record (λ _. answers) 1300 0 two_threads in
    (r ≡ process silent one_record (λ _. answers) 1300 0 two_threads)
    × ((added : List BlockEvent) × Added no_thread
          (λ _. answers)
          0
          events
          two_threads
          (add_all (λ _. answers) 0 events two_threads)
          added
        × (signals sent ≡ map (λ event. (event.pid, 27)) added)
        × (failures sent ≡ unreached no_thread added))
process_3x-signals_example =
    process_3x-signals no_thread silent one_record (λ _. answers) 1300 0 two_threads

compute_timestamp-near_example :
    (now : ℕ) × (t : ℕ) × (time_now (since_epoch 1700000000000999999) ≡ some now)
    × (compute_timestamp 5000000000 now 3000000000 ≡ some t)
    × (t * nanos + (5000000000 - 3000000000) ≤ 1700000000000999999)
    × (1700000000000999999 < t * nanos + (5000000000 - 3000000000) + 2 * nanos)
compute_timestamp-near_example =
    compute_timestamp-near 5000000000 1700000000000999999 3000000000 (omega arith) (omega arith)
      (omega arith) (omega arith)

boot-AreSized : AreSized small_map config boot
boot-AreSized = record { times = λ j t e. absurd (ground (arith, e, boot_empty j)); effects = tt }

records-decode_example :
    let written = records (run small_map config boot history).effects in
    All IsWellSized written × (map decode (map encode written) ≡ written)
records-decode_example =
    records-decode small_map config boot history
      (
        switch-IsSized 8 7 3000000000 (omega arith),
        (switch-IsSized 7 8 1000000000 (omega arith), tt),
      )
      boot-AreSized
