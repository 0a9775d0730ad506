-- ===== src/Provider.antt =====
-- The trait `JvmStackTraceProvider` (jbm/src/lib.rs), as an interface, and the provider that reads the
-- output of async-profiler (jbm/src/async_profiler.rs).
pub mod AsyncProfiler
pub mod Lifecycle
pub mod Reader
use jbm.Prelude.{List, Result, Text}
use jbm.HashMap.{HashMap}
use jbm.HashMap.Entries.{IsQueueMap}
use jbm.Events.{JvmEvent}
use jbm.Stream.{JvmFits}

-- A provider adds JVM events to the queues. The last field is the law that the theorems on the queues rely on:
-- it adds them to the queues of their threads, and from no state of `State` one with a time of 2 ^ 63 or more.
pub record JvmStackTraceProvider : Type 1 where
  pub State : Type 0
  pub fill_queue :
      State → HashMap (List JvmEvent) → State × HashMap (List JvmEvent) × Result (Unit {0}) Text
  pub fill_queue-valid :
      (st : State) (queues : HashMap (List JvmEvent))
      → IsQueueMap JvmFits queues
      → IsQueueMap JvmFits (fill_queue st queues).1
