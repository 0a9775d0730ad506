-- ===== src/Monitor.antt =====
-- The loop of `main` (jbm/src/main.rs). What the world gives for each time round is an argument.
pub mod Laws
pub mod Accounts
pub mod Expired
pub mod Ends
pub mod Output
pub mod Traces
use jbm.Prelude.{ℕ, Bool, List, [], ◌∷◌, ◌++◌, Option, Result, ok, err, Text, if◌then◌else◌}
use jbm.Events.{Pair}
use jbm.Stream.{EventStream}
use jbm.Stream.Add.{Answers, Failure}
use jbm.Provider.{JvmStackTraceProvider}
use jbm.Process.{Poll, process}

-- One time round the loop: whether ctrl-c was pressed, whether the target lives, and the answers that
-- `process` needs.
pub record Tick : Type 0 where
  pub has_done : Bool
  pub pid_alive : Bool
  pub polls : List (Option (Result Poll Text))
  pub ask : ℕ → Answers
  pub now : ℕ

-- How the loop stands after the ticks that are given.
pub data Outcome : Type 0 where
  running : Outcome
  interrupted : Outcome
  target_gone : Outcome
  failed : Failure → Outcome

module _ (P : JvmStackTraceProvider) where
  -- What `main` has: the provider and the stream (in `Jbm`), and the pairs that it has printed.
  pub record Monitor : Type 0 where
    pub provider : P.State
    pub stream : EventStream
    pub printed : List Pair

  pub print_all : Monitor → P.State × EventStream × Result (List Pair) Failure → Monitor
  print_all m (st, s, ok pairs) = record { provider = st; stream = s; printed = m.printed ++ pairs }
  print_all m (st, s, err failure) = record { provider = st; stream = s; printed = m.printed }

  abbrev pub failure_of :
      P.State × EventStream × Result (List Pair) Failure → Result (Unit {0}) Failure
  failure_of (st, s, ok pairs) = ok tt
  failure_of (st, s, err failure) = err failure

  unfoldable pub main_loop : List Tick → Monitor → Monitor × Outcome
  unfolding print_all
  main_loop [] m = (m, running)
  main_loop (tick ∷ ticks) m =
      let round = process P tick.polls tick.ask tick.now m.provider m.stream in
      let m' = print_all m round in
      let rest = main_loop ticks m' in
      if tick.has_done
      then (m, interrupted)
      else if tick.pid_alive
      then elim (failure_of round) [ ok _ ↦ rest | err failure ↦ (m', failed failure) ]
      else (m, target_gone)
