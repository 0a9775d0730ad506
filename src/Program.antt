-- ===== src/Program.antt =====
-- `main` (jbm/src/main.rs), from the command line to the end: the start of the profiler, the loading of
-- the eBPF program, the loop, and the drop of the profiler, which a panic of `Jbm::new` comes to as well.
pub mod Laws
pub mod Complete
use jbm.Prelude.{ℕ, Bool, List, [], ◌∷◌, Option, none, some, Result, ok, err, Text, codes}
use jbm.Common.{Config}
use jbm.Provider.{JvmStackTraceProvider}
use jbm.Provider.Lifecycle.{Host, start_provider, drop_provider}
use jbm.Loader.{Aya, Call, Step, done, fails, panics, Jbm, new_jbm}
use jbm.Monitor.{Tick, Outcome, Monitor, main_loop}

-- The options that the code uses.
pub record Cli : Type 0 where
  pub pid : ℕ
  pub min_block_time : ℕ
  pub max_block_time : ℕ
  pub stack_storage_size : ℕ
  pub async_profiler_bin : Option Text

abbrev pub default_async_profiler_bin : Text
default_async_profiler_bin = codes "./async-profiler/profiler.sh"

abbrev pub config_of : Cli → Config
config_of cli = record {
  target_tgid = cli.pid;
  min_block_us = cli.min_block_time;
  max_block_us = cli.max_block_time;
  stack_storage_size = cli.stack_storage_size;
}

abbrev or_default : Option Text → Text
or_default none = default_async_profiler_bin
or_default (some bin) = bin

abbrev pub profiler_bin : Cli → Text
profiler_bin cli = or_default cli.async_profiler_bin

-- How `main` ends, and the monitor that it had.
pub data Ending (P : JvmStackTraceProvider) : Type 0 where
  not_started : Text → Ending P
  not_loaded : Text → Ending P
  load_panics : Ending P
  ended : Monitor P → Outcome → Ending P

-- The profiler's commands, the calls of aya, and the end.
pub record Trace (P : JvmStackTraceProvider) : Type 0 where
  pub commands : List (List Text)
  pub calls : List Call
  pub ending : Ending P

-- `host` is the system for the profiler's binary, `first` the provider at its start, and `alive` whether
-- the target lives when the provider is dropped.
module _ (host : Text → Host) (aya : Aya) (P : JvmStackTraceProvider) (first : P.State)
    (alive : Bool) where
  abbrev run_loop : List Tick → Jbm aya → Ending P
  run_loop ticks jbm =
      let (m, outcome) =
        main_loop P ticks (record { provider = first; stream = jbm.stream; printed = [] }) in
      ended m outcome

  abbrev ending_of : List Tick → Step (Jbm aya) → Ending P
  ending_of ticks (done jbm) = run_loop ticks jbm
  ending_of ticks (fails e) = not_loaded e
  ending_of ticks panics = load_panics

  abbrev after_start : Cli → List Tick → List (List Text) × Result Text Text → Trace P
  after_start cli ticks (log, err e) = record { commands = log; calls = []; ending = not_started e }
  after_start cli ticks (log, ok path) =
      let (calls, loaded) = new_jbm aya (config_of cli) [] in
      record {
        commands = drop_provider (host (profiler_bin cli)) cli.pid alive path log;
        calls = calls;
        ending = ending_of ticks loaded;
      }

  unfoldable pub main : Cli → List Tick → Trace P
  main cli ticks = after_start cli ticks (start_provider (host (profiler_bin cli)) cli.pid alive)
