-- ===== src/Tests/Matching.antt =====
-- The matching loop on small queues (jbm/src/lib.rs).
use jbm.Prelude.{ℕ, ◌≡◌, refl, List, [], ◌∷◌, none, some, arith, codes}
use jbm.Events.{JvmEvent, BpfEvent}
use jbm.Matching.Find.{find_matching_jvm_event}
use jbm.Matching.Find.Laws.{reference, find_matching_jvm_event-reference}
use jbm.Matching.Drain.{Sweeping, round, drain}
use jbm.Matching.Drain.Fair.{AreFair}
use jbm.Matching.Drain.Fair.Rounds.{drain-AreFair}

abbrev pub blocked : ℕ → ℕ → BpfEvent
blocked tid timestamp = record {
  timestamp = timestamp;
  pid = 100;
  tid = tid;
  comm = codes "LOCKER";
  duration = 5000;
  stacktrace = [];
}

abbrev pub traced : ℕ → ℕ → JvmEvent
traced tid timestamp = record { timestamp = timestamp; tid = tid; frames = [] }

abbrev traces : List JvmEvent
traces = traced 7 900 ∷ (traced 7 1200 ∷ (traced 7 5000 ∷ []))

abbrev empty : Sweeping
empty = record { jvm_queue = traces; ret = []; trashed = [] }

abbrev blocks : List BpfEvent
blocks = blocked 7 1000 ∷ (blocked 7 1100 ∷ (blocked 7 9000 ∷ []))

-- The second block takes the trace of the first over.
drain-blocks : drain 9100 blocks empty ≡ (
  blocked 7 9000 ∷ [],
  record {
    jvm_queue = [];
    ret = (blocked 7 1100, some (traced 7 1200)) ∷ ((blocked 7 1000, none) ∷ []);
    trashed = traced 7 900 ∷ (traced 7 5000 ∷ []);
  },
)
unfolding drain round find_matching_jvm_event
drain-blocks = refl

find_matching_jvm_event-reference_example :
    find_matching_jvm_event 1000 traces ≡ reference 1000 traces
find_matching_jvm_event-reference_example =
    find_matching_jvm_event-reference 1000 traces (omega arith) (omega arith)

drain-AreFair_example : AreFair (drain 9100 blocks empty).1
drain-AreFair_example =
    drain-AreFair 9100 blocks traces
      (record { bpf_in_range = omega arith; jvm_in_range = omega arith; windows = tt })
      (omega arith) (omega arith)
