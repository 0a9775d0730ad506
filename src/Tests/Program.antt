-- ===== src/Tests/Program.antt =====
-- Runs of `Jbm::new` (jbm/src/lib.rs) and of `main` (jbm/src/main.rs).
use jbm.Prelude.{ℕ, ◌≡◌, refl, true, List, [], ◌∷◌, ◌++◌, map, none, ok, err, codes, if◌then◌else◌}
use jbm.Stream.{new, new_with}
use jbm.Provider.Lifecycle.{args, start_provider}
use jbm.Loader.{
  Aya, map_error, done, Call, load, load_program, attach, take_map, open_buffer, Jbm, load_bpf,
  load_with_retry, open_all, attach_program, open_buffers, new_jbm, set_memlock, settings,
}
use jbm.Loader.Laws.{Tries, Opened, new_jbm-done}
use jbm.Program.{Cli, config_of, main}
use jbm.Program.Laws.{if_started, main-commands}
use jbm.Tests.Intake.{silent}
use jbm.Tests.Monitor.{quiet, good_host}

-- A system with two CPUs, whose first load fails for want of locked memory.
abbrev pub aya : Aya
aya = record {
  Bpf = ℕ;
  Buffer = ℕ;
  load = λ log settings. elim log [ [] ↦ err (map_error (codes "EPERM")) | c ∷ cs ↦ ok 1 ];
  setrlimit = true;
  program = λ bpf. done tt;
  load_program = λ bpf. ok tt;
  attach = λ bpf. ok tt;
  events_map = λ bpf. done tt;
  online_cpus = ok (0 ∷ (1 ∷ []));
  open_buffer = λ cpu. ok cpu;
  kernel_symbols = ok tt;
}

abbrev pub cli : Cli
cli = record {
  pid = 100;
  min_block_time = 1000;
  max_block_time = 18446744073709551615;
  stack_storage_size = 10240;
  async_profiler_bin = none;
}

abbrev loaded : Jbm aya
loaded = record { bpf = 1; perf_buffers = 0 ∷ (1 ∷ []); stream = new }

abbrev calls : List Call
calls =
    load (settings aya (config_of cli))
    ∷ (set_memlock
        ∷ (load (settings aya (config_of cli))
            ∷ (load_program
                ∷ (attach (codes "finish_task_switch") 0
                    ∷ (take_map (codes "EVENTS") ∷ (open_buffer 0 ∷ (open_buffer 1 ∷ [])))))))

loads : new_jbm aya (config_of cli) [] ≡ (calls, done loaded)
unfolding new_jbm load_with_retry load_bpf attach_program open_buffers open_all new_with
loads = refl

new_jbm-done_example :
    (tries : List Call) × (cpus : List ℕ) × (calls
      ≡ tries
        ++ (load_program
            ∷ (attach (codes "finish_task_switch") 0
                ∷ (take_map (codes "EVENTS") ∷ map open_buffer cpus))))
    × Tries aya (config_of cli) tries
    × (aya.online_cpus ≡ ok cpus)
    × Opened aya cpus loaded.perf_buffers
    × (loaded.stream ≡ new)
    × (aya.kernel_symbols ≡ ok tt)
new_jbm-done_example = new_jbm-done aya (config_of cli) calls loaded loads

main-commands_example :
    ((main (λ bin. good_host) aya silent 0 true cli (quiet ∷ [])).commands
      ≡ args (codes "/tmp/jbm-ap-1") 100 (codes "start")
        ∷ (if true then args (codes "/tmp/jbm-ap-1") 100 (codes "stop") ∷ [] else []))
    × ((main (λ bin. good_host) aya silent 0 true cli (quiet ∷ [])).calls
        ≡ if_started (start_provider good_host 100 true).1 (new_jbm aya (config_of cli) []).0)
main-commands_example =
    main-commands (λ bin. good_host) aya silent 0 true cli (quiet ∷ []) (codes "/tmp/jbm-ap-1") refl
      refl
