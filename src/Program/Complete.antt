-- ===== src/Program/Complete.antt =====
-- All of `main` with async-profiler (jbm/src/main.rs, jbm/src/async_profiler.rs), from the command line to
-- its output.
use mathlib.Core.List.{Perm}
use jbm.Prelude.{
  ℕ, ◌+◌, ◌≡◌, ◌≢◌, ◌<◌, refl, sym, ap, subst, ◌∙◌, Bool, true, List, [], ◌++◌, map, Option, Text,
  i64_max, All, All-mono, All-parts, arith,
}
use jbm.Events.{JvmEvent}
use jbm.HashMap.{get}
use jbm.Stream.{new}
use jbm.Stream.Add.{Failure}
use jbm.Report.{report_text}
use jbm.System.{LocalResult, single, format_time}
use jbm.Provider.{JvmStackTraceProvider}
use jbm.Provider.AsyncProfiler.{async_profiler}
use jbm.Provider.Lifecycle.{Host}
use jbm.Loader.{Aya}
use jbm.Process.Accounts.{record_of, record_in, records_of}
use jbm.Process.Traces.{traces_in}
use jbm.Monitor.{Tick, Outcome, running, failed, Monitor, main_loop}
use jbm.Monitor.Accounts.{events_of_ticks, seen_of, main_loop-accounts}
use jbm.Monitor.Ends.{main_loop-Ends, EndsWith-reached, EndsWith}
use jbm.Monitor.Laws.{IsSound, main_loop-IsSound}
use jbm.Monitor.Output.{UpTo, IsUpTo, shown, print_texts, main_loop-print_texts}
use jbm.Monitor.Traces.{traces_read, discarded_by, main_loop-traces}
use jbm.Program.{Cli, ended, main}
use jbm.Program.Laws.{main-ended, new-IsValid}

module _ (parse : Text → Option JvmEvent) (show : ℕ → Option Text) (k : ℕ) where
  abbrev P : JvmStackTraceProvider
  P = async_profiler parse

  -- `main` has gone round the loop with some ticks and has come to `m`. `calls` is what the profiler's file
  -- gives.
  pub record IsComplete (calls : P.State) (rounds : List Tick) (m : Monitor P) : Type 0 where
    pub went :
        main_loop P rounds (record { provider = calls; stream = new; printed = [] }) ≡ (m, running)
    pub sound : IsSound m
    pub recorded :
        map record_of (seen_of k m) ≡ map record_in (records_of k (events_of_ticks rounds))
    pub traces :
        Perm
          (traces_in k
            (discarded_by parse k rounds (record { provider = calls; stream = new; printed = [] }))
            m.printed
            m.stream)
          (traces_read parse k rounds calls.0)
    pub texts : print_texts show m.printed ≡ (map (report_text (shown show)) m.printed, true)

module _ (parse : Text → Option JvmEvent) {A : Type 0} (timestamp_millis_opt : ℕ → LocalResult A)
    (format : A → Text → Text) where
  abbrev show : ℕ → Option Text
  show = format_time timestamp_millis_opt format

  module _ (k last : ℕ) (word : last < i64_max)
      (local : (t : ℕ) → t < last + 1000 → (d : A) × (timestamp_millis_opt t ≡ single d))
      (calls : (async_profiler parse).State) where
    abbrev beginning : Monitor (async_profiler parse)
    beginning = record { provider = calls; stream = new; printed = [] }

    beginning-IsSound : IsSound beginning
    beginning-IsSound = record { valid = new-IsValid; windows = tt }

    beginning-IsUpTo : IsUpTo last beginning
    unfolding new
    beginning-IsUpTo = record { waiting = record { distinct = tt; entries = tt }; printed = tt }

    beginning-seen : seen_of k beginning ≡ []
    unfolding new get
    beginning-seen = refl

    beginning-traces : traces_in k [] [] new ≡ []
    unfolding new get
    beginning-traces = refl

    -- Any number of rounds.
    rounds-IsComplete :
        (rounds : List Tick) (m : Monitor (async_profiler parse))
        → All (UpTo last) rounds
        → main_loop (async_profiler parse) rounds beginning ≡ (m, running)
        → IsComplete parse show k calls rounds m
    rounds-IsComplete rounds m times runs =
        let P = async_profiler parse in
        let in_time = All-mono rounds (λ tick h n. omega (arith, h n)) times in
        let still : (main_loop P rounds beginning).1 ≡ running = ap (λ r. r.1) runs in
        let sound = main_loop-IsSound P rounds beginning in_time beginning-IsSound in
        let texts =
          main_loop-print_texts P last timestamp_millis_opt format rounds beginning word local times
            beginning-IsSound beginning-IsUpTo in
        let (added, to, same) = main_loop-accounts P k rounds beginning in_time new-IsValid still in
        let traces = main_loop-traces parse k rounds beginning in_time new-IsValid still in
        subst (λ r. IsComplete parse show k calls rounds r.0) runs
          (record {
            went = ap (λ o. ((main_loop P rounds beginning).0, o)) still;
            sound = sound;
            recorded = ap (map record_of) (to ∙ ap (λ l. l ++ added) beginning-seen) ∙ same;
            traces =
                subst
                  (λ l.
                    Perm
                      (traces_in k (discarded_by parse k rounds beginning)
                        (main_loop P rounds beginning).0.printed
                        (main_loop P rounds beginning).0.stream)
                      (l ++ traces_read parse k rounds calls.0))
                  beginning-traces traces;
            texts = texts;
          })

    -- All of it at once, with async-profiler, for each thread. If `main` comes to the loop and no round of
    -- it fails, it has gone round with the first of the ticks and ends as those rounds have left it: with
    -- no tick left, or at one at which `has_done` holds or, if not, the target is gone. Then: the stream
    -- is valid and each printed pair in its window; the events of the thread that were printed, in the
    -- order of the output, and those that wait are the records of the thread that the rounds brought, one
    -- event for each record, in their order; the Java stacks of the thread that were printed, that the
    -- sweeps have trashed, and that wait are those of the lines read, each once; and the report of each
    -- printed pair came out in full. The wall clock is at `last` or before, below 2 ^ 63, whenever an
    -- event is added; chrono shows the times up to a second after it; and the times in the lines that are
    -- to be read are below 2 ^ 63.
    pub main-IsComplete :
        (host : Text → Host) (aya : Aya) (alive : Bool) (cli : Cli) (ticks : List Tick)
        (m : Monitor (async_profiler parse)) (outcome : Outcome)
        → All (UpTo last) ticks
        → (main host aya (async_profiler parse) calls alive cli ticks).ending ≡ ended m outcome
        → ((f : Failure) → outcome ≢ failed f)
        → (rounds : List Tick) × (left : List Tick) × (ticks ≡ rounds ++ left)
          × IsComplete parse show k calls rounds m
          × EndsWith (async_profiler parse) left m m outcome
    main-IsComplete host aya alive cli ticks m outcome times e fine =
        let P = async_profiler parse in
        let whole = main-ended host aya P calls alive cli ticks m outcome e in
        let h = main_loop-Ends P ticks beginning in
        let reached : m ≡ h.reached =
          EndsWith-reached P h.left h.reached m outcome fine
            (subst (λ r. EndsWith P h.left h.reached r.0 r.1) whole h.ends) in
        let early = All-parts (UpTo last) h.rounds h.left (subst (All (UpTo last)) h.split times) in
        (
          h.rounds,
          h.left,
          h.split,
          rounds-IsComplete h.rounds m early.0 (h.runs ∙ ap (λ r. (r, running)) (sym reached)),
          subst (λ u. EndsWith P h.left u m outcome) (sym reached)
              (subst (λ r. EndsWith P h.left h.reached r.0 r.1) whole h.ends),
        )
