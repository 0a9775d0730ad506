-- ===== src/Stream/Sweep/Valid.antt =====
-- A sweep of a valid stream ends, leaves it valid, and reports sound and settled matches.
use jbm.Prelude.{ℕ, ◌≡◌, subst, List, some, All, All-mono}
use jbm.HashMap.{get, queue}
use jbm.HashMap.Entries.{queue-All, store-IsQueueMap}
use jbm.Events.{BpfEvent}
use jbm.Matching.Drain.{drain}
use jbm.Matching.Drain.Window.{InWindow, IsTimely, drain-IsTimely}
use jbm.Matching.Drain.Settled.{IsSettled, drain-IsSettled}
use jbm.Matching.Drain.Queues.{drain-QueuesKeep}
use jbm.Stream.{EventStream, IsValid, BpfFits, JvmFits}
use jbm.Stream.Sweep.{Swept, start, settle, sweep_all}
use jbm.Stream.Sweep.Total.{sweep_all_rule}

pub record IsSound (w : Swept) : Type 0 where
  pub valid : IsValid w.stream
  pub windows : All InWindow w.ret
  pub settled : IsSettled w.ret

-- The queue that `get` finds is the one that `queue` gives.
pub queue_of_get :
    (t : ℕ) (w : Swept) {bq : List BpfEvent}
    → get t w.stream.bpf_events ≡ some bq
    → queue t w.stream.bpf_events ≡ bq
queue_of_get t w e = rw e

pub start-IsTimely :
    (t : ℕ) (w : Swept) (bq : List BpfEvent)
    → All (BpfFits t) bq
    → IsSound w
    → IsTimely bq (start t w)
start-IsTimely t w bq fits h = record {
  bpf_in_range = All-mono bq (λ b f. f.1) fits;
  jvm_in_range =
      All-mono (queue t w.stream.jvm_events) (λ j f. f.1) (queue-All JvmFits t h.valid.jvm_valid);
  windows = h.windows;
}

-- What the queue of a thread holds fits it, before and after the loop.
pub front-fits :
    (t : ℕ) (w : Swept) (bq : List BpfEvent)
    → get t w.stream.bpf_events ≡ some bq
    → IsValid w.stream
    → All (BpfFits t) bq
front-fits t w bq e v =
    subst (All (BpfFits t)) (queue_of_get t w e) (queue-All BpfFits t v.bpf_valid)

pub left-fits :
    (now t : ℕ) (w : Swept) (bq : List BpfEvent)
    → get t w.stream.bpf_events ≡ some bq
    → IsValid w.stream
    → All (BpfFits t) (drain now bq (start t w)).0
      × All (JvmFits t) (drain now bq (start t w)).1.jvm_queue
left-fits now t w bq e v =
    drain-QueuesKeep (BpfFits t) (JvmFits t) now bq (start t w)
      (front-fits t w bq e v, queue-All JvmFits t v.jvm_valid)

pub settle-IsSound :
    (now t : ℕ) (w : Swept) (bq : List BpfEvent)
    → get t w.stream.bpf_events ≡ some bq
    → IsSound w
    → IsSound (settle t w (drain now bq (start t w)))
settle-IsSound now t w bq e h = record {
  valid = record {
    bpf_valid = store-IsQueueMap BpfFits t (drain now bq (start t w)).0 left.0 h.valid.bpf_valid;
    jvm_valid =
        store-IsQueueMap JvmFits t (drain now bq (start t w)).1.jvm_queue left.1 h.valid.jvm_valid;
  };
  windows = (drain-IsTimely now bq (start t w) timely).windows;
  settled = drain-IsSettled now bq (start t w) timely h.settled;
}
  where
    timely : IsTimely bq (start t w)
    timely = start-IsTimely t w bq (front-fits t w bq e h.valid) h

    left :
        All (BpfFits t) (drain now bq (start t w)).0
        × All (JvmFits t) (drain now bq (start t w)).1.jvm_queue
    left = left-fits now t w bq e h.valid

-- A sweep of a valid stream does not panic. It leaves a valid stream, each reported match lies in its
-- window (the JVM event is not older than the BPF event and less than 1000 ms younger), and no
-- reported BPF event lies strictly between the two events of the pair before it.
pub sweep_all-IsSound :
    (now : ℕ) (s : EventStream) → IsValid s → (w : Swept) × (sweep_all now s ≡ some w) × IsSound w
sweep_all-IsSound now s v =
    sweep_all_rule (λ _ w. IsSound w) now (λ t ts w bq e h. settle-IsSound now t w bq e h) s
      v.bpf_valid.distinct (record { valid = v; windows = tt; settled = tt })
