-- ===== src/Program/Laws.antt =====
-- What `main` promises as a whole.
use jbm.Prelude.{
  ◌≡◌, refl, subst, Bool, List, [], ◌∷◌, Result, ok, err, Text, codes, All, arith, inl, inr, ◌⊎◌,
  ◌∙◌, if◌then◌else◌,
}
use jbm.Stream.{new, IsValid}
use jbm.Provider.{JvmStackTraceProvider}
use jbm.Provider.Lifecycle.{Host, args, start_provider, session, session-commands}
use jbm.Loader.{Aya, Call, Step, done, fails, panics, new_jbm}
use jbm.Loader.Laws.{new_jbm-done}
use jbm.Monitor.{Tick, Outcome, Monitor, main_loop}
use jbm.Monitor.Laws.{InTime, IsSound, main_loop-IsSound}
use jbm.Program.{Cli, ended, config_of, profiler_bin, main}

pub new-IsValid : IsValid new
unfolding new
new-IsValid = record {
  bpf_valid = record { distinct = tt; entries = tt };
  jvm_valid = record { distinct = tt; entries = tt };
}

-- How loading ended.
Step-cases :
    {A : Type 0} (r : List Call × Step A)
    → ((log : List Call) × (a : A) × (r ≡ (log, done a)))
      ⊎ (((log : List Call) × (t : Text) × (r ≡ (log, fails t)))
          ⊎ ((log : List Call) × (r ≡ (log, panics))))
Step-cases (log, done a) = inl (log, a, refl)
Step-cases (log, fails t) = inr (inl (log, t, refl))
Step-cases (log, panics) = inr (inr (log, refl))

-- The calls, if the profiler was started.
abbrev pub if_started : Result Text Text → List Call → List Call
if_started (ok path) calls = calls
if_started (err e) calls = []

module _ (host : Text → Host) (aya : Aya) (P : JvmStackTraceProvider) (first : P.State)
    (alive : Bool) where
  main-session :
      (cli : Cli) (ticks : List Tick) (r : List (List Text) × Result Text Text)
      → start_provider (host (profiler_bin cli)) cli.pid alive ≡ r
      → (main host aya P first alive cli ticks).commands
        ≡ session (host (profiler_bin cli)) cli.pid alive
  unfolding main session
  main-session cli ticks (log, ok path) e = rw e refl
  main-session cli ticks (log, err t) e = rw e refl

  main-calls :
      (cli : Cli) (ticks : List Tick) (r : List (List Text) × Result Text Text)
      → start_provider (host (profiler_bin cli)) cli.pid alive ≡ r
      → (main host aya P first alive cli ticks).calls
        ≡ if_started r.1 (new_jbm aya (config_of cli) []).0
  unfolding main
  main-calls cli ticks (log, ok path) e = rw e refl
  main-calls cli ticks (log, err t) e = rw e refl

  -- Whatever the outcome of loading the eBPF program, and of the loop: once the profiler has a file to
  -- write to it is told to start and, if the target lives at the end, to stop, once each, with the same
  -- file and the pid of the command line. aya is called as by `new`, if the start of the profiler succeeds,
  -- and otherwise not at all.
  pub main-commands :
      (cli : Cli) (ticks : List Tick) (path : Text)
      → (host (profiler_bin cli)).tempfile ≡ ok path
      → (host (profiler_bin cli)).open_file path ≡ ok tt
      → ((main host aya P first alive cli ticks).commands
          ≡ args path cli.pid (codes "start")
            ∷ (if alive then args path cli.pid (codes "stop") ∷ [] else []))
        × ((main host aya P first alive cli ticks).calls
            ≡ if_started
                (start_provider (host (profiler_bin cli)) cli.pid alive).1
                (new_jbm aya (config_of cli) []).0)
  main-commands cli ticks path file opened =
      let started = start_provider (host (profiler_bin cli)) cli.pid alive in
      (
        main-session cli ticks started refl
            ∙ session-commands (host (profiler_bin cli)) cli.pid alive path file opened,
        main-calls cli ticks started refl,
      )

  -- The monitor that the loop starts with.
  abbrev pub begin : Monitor P
  begin = record { provider = first; stream = new; printed = [] }

  loaded-ended :
      (cli : Cli) (ticks : List Tick) (log : List (List Text)) (path : Text) (m : Monitor P)
      (outcome : Outcome)
      → start_provider (host (profiler_bin cli)) cli.pid alive ≡ (log, ok path)
      → (main host aya P first alive cli ticks).ending ≡ ended m outcome
      → main_loop P ticks begin ≡ (m, outcome)
  unfolding main
  loaded-ended cli ticks log path m outcome e f =
      elim (Step-cases (new_jbm aya (config_of cli) [])) [
        | inl (calls, jbm, g) ↦
            let (tries, cpus, a, b, c, d, fresh, symbols) =
              new_jbm-done aya (config_of cli) calls jbm g in
            let same : main_loop P ticks
                  (record { provider = first; stream = jbm.stream; printed = [] })
                ≡ (m, outcome) =
              ground (arith, e, f, g) in
            rw fresh at same
        | inr (inl (calls, t, g)) ↦ absurd (ground (arith, e, f, g))
        | inr (inr (calls, g)) ↦ absurd (ground (arith, e, f, g))
      ]

  started-ended :
      (cli : Cli) (ticks : List Tick) (r : List (List Text) × Result Text Text) (m : Monitor P)
      (outcome : Outcome)
      → start_provider (host (profiler_bin cli)) cli.pid alive ≡ r
      → (main host aya P first alive cli ticks).ending ≡ ended m outcome
      → main_loop P ticks begin ≡ (m, outcome)
  unfolding main
  started-ended cli ticks (log, ok path) m outcome e f =
      loaded-ended cli ticks log path m outcome e f
  started-ended cli ticks (log, err t) m outcome e f = absurd (ground (arith, e, f))

  -- If `main` comes to the loop, it is with a new stream.
  pub main-ended :
      (cli : Cli) (ticks : List Tick) (m : Monitor P) (outcome : Outcome)
      → (main host aya P first alive cli ticks).ending ≡ ended m outcome
      → main_loop P ticks begin ≡ (m, outcome)
  main-ended cli ticks m outcome e =
      started-ended cli ticks (start_provider (host (profiler_bin cli)) cli.pid alive) m outcome
        refl e

  -- If the loop was reached the monitor is sound at its end: the stream is valid, and all pairs that were
  -- printed lie in their windows, as long as the clock stays below 2 ^ 63.
  main-IsSound :
      (cli : Cli) (ticks : List Tick) (m : Monitor P) (outcome : Outcome)
      → All InTime ticks
      → (main host aya P first alive cli ticks).ending ≡ ended m outcome
      → IsSound m
  main-IsSound cli ticks m outcome h e =
      let start : IsSound begin = record { valid = new-IsValid; windows = tt } in
      subst (λ r. IsSound r.0) (main-ended cli ticks m outcome e)
        (main_loop-IsSound P ticks begin h start)
