-- ===== src/Monitor/Laws.antt =====
-- What the loop of `main` prints, and when it ends.
use jbm.Prelude.{
  ℕ, ◌≡◌, ◌<◌, true, false, List, [], ◌∷◌, Result, ok, err, i64_max, All, All-append, arith,
}
use jbm.Events.{Pair}
use jbm.Matching.Drain.Window.{InWindow}
use jbm.Stream.{EventStream, IsValid}
use jbm.Stream.Add.{Failure}
use jbm.Provider.{JvmStackTraceProvider}
use jbm.Process.{process}
use jbm.Process.Laws.{process-keeps, InWindows}
use jbm.Monitor.{Tick, running, Monitor, print_all, main_loop}

-- The clock stays below 2 ^ 63 milliseconds.
abbrev pub InTime : Tick → Type 0
InTime tick = (n : ℕ) → (tick.ask n).now < i64_max

-- The loop was not told to end.
abbrev pub IsQuiet : Tick → Type 0
IsQuiet tick = (tick.has_done ≡ false) × (tick.pid_alive ≡ true)

module _ {P : JvmStackTraceProvider} where
  pub record IsSound (m : Monitor P) : Type 0 where
    pub valid : IsValid m.stream
    pub windows : All InWindow m.printed

  print_all-IsSound :
      (m : Monitor P) (r : P.State × EventStream × Result (List Pair) Failure)
      → IsSound m
      → IsValid r.1 × InWindows r.2
      → IsSound (print_all P m r)
  unfolding print_all
  print_all-IsSound m (st, s, ok pairs) k h = record {
    valid = h.0;
    windows = All-append InWindow m.printed pairs h.1 k.windows;
  }
  print_all-IsSound m (st, s, err failure) k h = record { valid = h.0; windows = k.windows }

module _ (P : JvmStackTraceProvider) where
  -- Whichever way the loop ends, and after any number of rounds: the stream is valid, and each printed
  -- pair lies in its window, if that was so at the start and the clock stays below 2 ^ 63.
  pub main_loop-IsSound :
      (ticks : List Tick) (m : Monitor P)
      → All InTime ticks
      → IsSound m
      → IsSound (main_loop P ticks m).0
  unfolding main_loop
  main_loop-IsSound [] m h k = k
  main_loop-IsSound (tick ∷ ticks) m h k =
      let round = process P tick.polls tick.ask tick.now m.provider m.stream in
      let k' =
        print_all-IsSound m round k
          (process-keeps P tick.polls tick.ask tick.now m.provider m.stream h.0 k.valid) in
      let rest = main_loop-IsSound ticks (print_all P m round) h.1 k' in ground (arith, rest, k, k')

  -- The loop ends by ctrl-c and by the death of the target: as long as it runs, each time round saw
  -- neither.
  main_loop-running :
      (ticks : List Tick) (m : Monitor P) → (main_loop P ticks m).1 ≡ running → All IsQuiet ticks
  unfolding main_loop
  main_loop-running [] m h = tt
  main_loop-running (tick ∷ ticks) m h =
      let round = process P tick.polls tick.ask tick.now m.provider m.stream in
      let rest = main_loop-running ticks (print_all P m round) in ground (arith, rest, h)
