-- ===== src/Tests/Intake.antt =====
-- Events on their way into the stream: adding, filling, resolving, and a whole round.
use jbm.Prelude.{
  ℕ, ◌+◌, ◌≡◌, refl, List, [], ◌∷◌, ◌++◌, Option, none, some, Result, ok, err, Text, arith, codes,
  false, ◌==◌, if◌then◌else◌,
}
use jbm.Common.{BlockEvent}
use jbm.HashMap.{queue, push_back}
use jbm.Events.{JvmEvent, BpfEvent}
use jbm.Resolver.{Symbolized, resolve}
use jbm.Resolver.Laws.{side_by_side, resolve-frames}
use jbm.Stream.{EventStream, IsValid}
use jbm.Stream.Clock.{compute_timestamp}
use jbm.Stream.Add.{Answers, bpf_event_of, stored, add_bpf_event}
use jbm.Stream.Add.Laws.{add_bpf_event-queue}
use jbm.Provider.{JvmStackTraceProvider}
use jbm.Provider.AsyncProfiler.{fill_queue, queue-fill_queue, events_of}
use jbm.Process.{Poll, process}
use jbm.Process.Laws.{process-keeps, InWindows}
use jbm.Tests.Matching.{traced}
use jbm.Tests.Stream.{two_threads, two_threads-IsValid}

-- Two digits at most, as far as the tests go.
show : ℕ → Text
show n = (b'0' + n) ∷ []

abbrev park : Symbolized
park = record { symbol = codes "park"; path = codes "libc"; line = 7 }

abbrev symbolize : List ℕ → Result (List (List Symbolized)) Text
symbolize stack = ok ((park ∷ []) ∷ ([] ∷ []))

resolve_three :
    resolve show symbolize (10 ∷ 20 ∷ 30 ∷ [])
    ≡ ok ((10, some (codes "park@libc:7")) ∷ (20, none) ∷ (30, none) ∷ [])
unfolding resolve show
resolve_three = refl

resolve-frames_example :
    resolve show symbolize (10 ∷ 20 ∷ 30 ∷ [])
    ≡ ok (side_by_side show ((park ∷ []) ∷ ([] ∷ [])) (10 ∷ 20 ∷ 30 ∷ []))
resolve-frames_example =
    resolve-frames show symbolize (10 ∷ 20 ∷ 30 ∷ []) ((park ∷ []) ∷ ([] ∷ [])) refl

abbrev pub answers : Answers
answers = record {
  get_stack = λ id. ok (id ∷ []);
  kernel_symbol = λ ip. none;
  resolve_user = λ tgid stack. ok ((20, some (codes "main")) ∷ []);
  lossy = λ bytes. bytes;
  now_ktime = 5000000000;
  now = 1700000000000;
  stack_count = 2;
}

abbrev event : BlockEvent
event = record {
  pid = 7;
  tgid = 100;
  user_stack_id = 6;
  kernel_stack_id = 5;
  name = codes "LOCKER" ++ (0 ∷ 0 ∷ []);
  offtime = 2000000;
  t_start = 1000000000;
  t_end = 3000000000;
}

abbrev added : EventStream
added = (stored answers event two_threads made).0
  where
    made : BpfEvent
    made = record {
      timestamp = 1699999998000;
      pid = 100;
      tid = 7;
      comm = codes "LOCKER";
      duration = 2000000;
      stacktrace = (5, codes "[unknown symbol name]") ∷ ((20, codes "main") ∷ []);
    }

adds : add_bpf_event answers event two_threads ≡ ok (added, false)
unfolding add_bpf_event bpf_event_of compute_timestamp
adds = refl

add_bpf_event-queue_example :
    (b : BpfEvent) × (queue 7 added.bpf_events ≡ (
      if event.pid == 7
      then queue 7 two_threads.bpf_events ++ (b ∷ [])
      else queue 7 two_threads.bpf_events))
    × (added.jvm_events ≡ two_threads.jvm_events)
    × (b.tid ≡ event.pid)
    × (b.pid ≡ event.tgid)
    × (b.duration ≡ event.offtime)
    × (compute_timestamp answers.now_ktime answers.now event.t_end ≡ some b.timestamp)
add_bpf_event-queue_example = add_bpf_event-queue answers event two_threads added 7 adds

-- The hundredth event, with a storage of two stacks that is full.
abbrev hundredth : EventStream
hundredth = record added { event_count = 100 }

adds_hundredth :
    add_bpf_event answers event (record two_threads { event_count = 99 }) ≡ ok (hundredth, false)
unfolding add_bpf_event bpf_event_of compute_timestamp
adds_hundredth = refl

-- A line of one code point is the trace of thread 7 at that time.
abbrev parse : Text → Option JvmEvent
parse [] = none
parse (c ∷ []) = some (traced 7 c)
parse (c ∷ (d ∷ rest)) = none

abbrev reads : List (Result Text Text)
reads =
    ok (codes "a")
    ∷ (ok (codes "bad") ∷ (ok (codes "b") ∷ (err (codes "io") ∷ (ok (codes "c") ∷ []))))

filled :
    fill_queue parse reads [] ≡ ((7, traced 7 b'a' ∷ (traced 7 b'b' ∷ [])) ∷ [], err (codes "io"))
unfolding fill_queue push_back
filled = refl

queue-fill_queue_example :
    queue 7 (fill_queue parse reads two_threads.jvm_events).0
    ≡ queue 7 two_threads.jvm_events ++ events_of parse 7 reads
queue-fill_queue_example = queue-fill_queue parse 7 reads two_threads.jvm_events

-- A provider with nothing to give.
abbrev pub silent : JvmStackTraceProvider
silent = record {
  State = ℕ;
  fill_queue = λ st queues. (st, queues, ok tt);
  fill_queue-valid = λ st queues v. v;
}

abbrev pub polls : List (Option (Result Poll Text))
polls = none ∷ (some (err (codes "io")) ∷ [])

process-keeps_example :
    let r = process silent polls (λ _. answers) 1300 0 two_threads in IsValid r.1 × InWindows r.2
process-keeps_example =
    process-keeps silent polls (λ _. answers) 1300 0 two_threads (λ _. omega arith)
      two_threads-IsValid
