-- ===== src/Process.antt =====
-- `Jbm::process` (jbm/src/lib.rs): one round of the monitor. What each per-CPU buffer gives is an
-- argument, as are the answers that the adding of each event needs.
pub mod Laws
pub mod Accounts
pub mod Expired
pub mod Errors
pub mod Kernel3x
pub mod Shown
pub mod Traces
use jbm.Prelude.{
  ℕ, zero, suc, List, [], ◌∷◌, ◌++◌, map, reverse, Option, none, some, Result, ok, err, Text, take,
}
use jbm.Common.{BlockEvent}
use jbm.Wire.{decode}
use jbm.Events.{Pair}
use jbm.Stream.{EventStream}
use jbm.Stream.Add.{Answers, Failure, error, panics, add_bpf_event}
use jbm.Stream.Sweep.{sweep}
use jbm.Provider.{JvmStackTraceProvider}

-- What `read_events` fills: the buffers, and how many of them it has read.
pub record Poll : Type 0 where
  pub buffers : List (List ℕ)
  pub read : ℕ

-- `none` is the timeout of a second. An error of the buffer is logged.
abbrev pub events_of_poll : Option (Result Poll Text) → List BlockEvent
events_of_poll none = []
events_of_poll (some (err e)) = []
events_of_poll (some (ok poll)) = map decode (take poll.read poll.buffers)

-- The events of all the buffers, in the order of the CPUs.
unfoldable pub events_of_polls : List (Option (Result Poll Text)) → List BlockEvent
events_of_polls [] = []
events_of_polls (p ∷ ps) = events_of_poll p ++ events_of_polls ps

-- `?` leaves the loop, and the events behind are dropped. `ask i` answers the call for event `i`.
unfoldable pub add_all :
    (ℕ → Answers) → ℕ → List BlockEvent → EventStream → EventStream × Result (Unit {0}) Failure
add_all ask i [] s = (s, ok tt)
add_all ask i (event ∷ events) s = elim (add_bpf_event (ask i) event s) [
  | ok (s', warned) ↦ add_all ask (suc i) events s'
  | err failure ↦ (s, err failure)
]

-- The rest of the round: the provider's events, and the sweep at `now`.
pub after_fill : ℕ → EventStream → Result (Unit {0}) Text → EventStream × Result (List Pair) Failure
after_fill now s (err e) = (s, err (error e))
after_fill now s (ok _) = elim (sweep now s) [
  | none ↦ (s, err panics)
  | some (s', pairs) ↦ (s', ok pairs)
]

module _ (P : JvmStackTraceProvider) where
  pub fill : P.State → EventStream → P.State × EventStream × Result (Unit {0}) Text
  fill st s =
      let (st', queues, r) = P.fill_queue st s.jvm_events in
      (st', record s { jvm_events = queues }, r)

  pub after_add :
      ℕ
      → P.State
      → EventStream × Result (Unit {0}) Failure
      → P.State × EventStream × Result (List Pair) Failure
  after_add now st (s, err failure) = (st, s, err failure)
  after_add now st (s, ok _) =
      let (st', s', r) = fill st s in let (s'', pairs) = after_fill now s' r in (st', s'', pairs)

  unfoldable pub process :
      List (Option (Result Poll Text))
      → (ℕ → Answers)
      → ℕ
      → P.State
      → EventStream
      → P.State × EventStream × Result (List Pair) Failure
  unfolding after_add after_fill fill
  process polls ask now st s = after_add now st (add_all ask 0 (events_of_polls polls) s)
