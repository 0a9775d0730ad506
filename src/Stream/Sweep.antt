-- ===== src/Stream/Sweep.antt =====
-- `EventStream::sweep` (jbm/src/lib.rs), with the clock's `now` as an argument. A missing queue, at
-- which `expect` panics, gives `none`.
pub mod Total
pub mod Valid
pub mod Accounts
pub mod Idle
pub mod Nearest
pub mod Reported
pub mod Apart
pub mod Crosses
use jbm.Prelude.{ℕ, List, [], ◌∷◌, reverse, Option, none, some}
use jbm.HashMap.{get, queue, store, keys}
use jbm.Events.{JvmEvent, BpfEvent, Pair}
use jbm.Matching.Drain.{Sweeping, drain}
use jbm.Stream.{EventStream}

-- The stream, and `ret` newest first.
pub record Swept : Type 0 where
  pub stream : EventStream
  pub ret : List Pair
  pub trashed : List JvmEvent

-- What the loop over one thread starts with.
abbrev pub start : ℕ → Swept → Sweeping
start tid w = record { jvm_queue = queue tid w.stream.jvm_events; ret = w.ret; trashed = w.trashed }

-- Both queues are stored again, or removed if they are empty.
abbrev pub settle : ℕ → Swept → List BpfEvent × Sweeping → Swept
settle tid w (bpf_queue, s) = record {
  stream = record w.stream {
    bpf_events = store tid bpf_queue w.stream.bpf_events;
    jvm_events = store tid s.jvm_queue w.stream.jvm_events;
  };
  ret = s.ret;
  trashed = s.trashed;
}

unfoldable pub sweep_tid : ℕ → ℕ → Swept → Option Swept
sweep_tid now tid w = elim (get tid w.stream.bpf_events) [
  | none ↦ none
  | some bpf_queue ↦ some (settle tid w (drain now bpf_queue (start tid w)))
]

-- The loop over the thread ids, in whatever order the map gives them.
unfoldable pub sweep_tids : ℕ → List ℕ → Swept → Option Swept
sweep_tids now [] w = some w
sweep_tids now (tid ∷ tids) w = elim (sweep_tid now tid w) [
  | none ↦ none
  | some w' ↦ sweep_tids now tids w'
]

abbrev pub unswept : EventStream → Swept
unswept s = record { stream = s; ret = []; trashed = [] }

unfoldable pub sweep_all : ℕ → EventStream → Option Swept
sweep_all now s = sweep_tids now (keys s.bpf_events) (record { stream = s; ret = []; trashed = [] })

abbrev pub oldest_first : Option Swept → Option (EventStream × List Pair)
oldest_first none = none
oldest_first (some w) = some (w.stream, reverse w.ret)

unfoldable pub sweep : ℕ → EventStream → Option (EventStream × List Pair)
unfolding sweep_all
sweep now s = oldest_first (sweep_all now s)
