-- ===== src/Stream.antt =====
-- `EventStream` (jbm/src/lib.rs): the BPF and the JVM events that wait for each other. `ksyms` and
-- `symbol_resolver` do not change, and are parameters of `Stream.Add`.
pub mod Sweep
pub mod Add
pub mod Clock
use jbm.Prelude.{ℕ, ◌≡◌, ◌<◌, List, [], i64_max, Option, none, some, Result, ok, err, Text}
use jbm.HashMap.{HashMap}
use jbm.HashMap.Entries.{IsQueueMap}
use jbm.Events.{JvmEvent, BpfEvent}

pub record EventStream : Type 0 where
  pub bpf_events : HashMap (List BpfEvent)
  pub event_count : ℕ
  pub jvm_events : HashMap (List JvmEvent)

-- `new`, where it does not panic.
unfoldable pub new : EventStream
new = record { bpf_events = []; event_count = 0; jvm_events = [] }

-- `new` as a whole, over the answer of aya's `kernel_symbols`, at whose errors `expect` panics.
unfoldable pub new_with : Result (Unit {0}) Text → Option EventStream
new_with (ok _) = some new
new_with (err e) = none

-- The queue of a thread holds events of that thread, with times below 2 ^ 63.
abbrev pub BpfFits : ℕ → BpfEvent → Type 0
BpfFits t b = (b.tid ≡ t) × (b.timestamp < i64_max)

abbrev pub JvmFits : ℕ → JvmEvent → Type 0
JvmFits t j = (j.tid ≡ t) × (j.timestamp < i64_max)

-- The invariant of a stream: distinct keys, no empty queue, and in each queue the events that fit it.
pub record IsValid (s : EventStream) : Type 0 where
  pub bpf_valid : IsQueueMap BpfFits s.bpf_events
  pub jvm_valid : IsQueueMap JvmFits s.jvm_events
