-- ===== src/Xtask/Run/Laws.antt =====
-- Which commands the tasks run, and how they end.
use jbm.Prelude.{
  ℕ, ◌≡◌, refl, Bool, false, ◌&&◌, List, [], ◌∷◌, ◌++◌, none, Result, ok, err, Text, if◌then◌else◌,
  arith,
}
use jbm.Xtask.{Command}
use jbm.Xtask.BuildEbpf.{Host, build_ebpf, build_ebpf_command, status}
use jbm.Xtask.Words.{trim, split_terminator}
use jbm.Xtask.Run.{Options, build, build_command, run, run_words, main, run_task, bin_path}

-- The command was run and succeeded.
abbrev pub succeeds : Result Bool Text → Bool
succeeds (ok success) = success
succeeds (err e) = false

words-cons :
    (front : List Text) (bin : Text) (back : List Text)
    → (program : Text) × (args : List Text) × (front ++ (bin ∷ back) ≡ program ∷ args)
words-cons [] bin back = (bin, back, refl)
words-cons (w ∷ front) bin back = (w, front ++ (bin ∷ back), refl)

module _ (host : Host) (opts : Options) where
  abbrev pub ebpf_command : Command
  ebpf_command = build_ebpf_command (record { target = opts.bpf_target; release = opts.release })

  abbrev pub last_command : Text → List Text → Command
  last_command program args = record {
    program = program;
    args = args;
    current_dir = none;
    env_remove = [];
  }

  abbrev pub ebpf_built : Bool
  ebpf_built = succeeds (host ebpf_command)

  abbrev pub all_built : Bool
  all_built = ebpf_built && succeeds (host (build_command opts))

  -- What a command leaves for the exit code: it ran and succeeded, ran and failed, or could not be run.
  abbrev pub code_of : Result Bool Text → ℕ
  code_of (ok success) = if success then 0 else 1
  code_of (err e) = 101

  main_run_of :
      (program : Text) (args : List Text)
      → run_words opts ≡ program ∷ args
      → ((main host (run_task opts)).0
          ≡ ebpf_command
            ∷ (if ebpf_built
                then build_command opts ∷ (if all_built then last_command program args ∷ [] else [])
                else []))
        × ((main host (run_task opts)).1
            ≡ (if all_built then code_of (host (last_command program args)) else 101))
  unfolding main run build_ebpf build status
  main_run_of program args words = ground (arith, words)

  -- The words of the runner, the built binary and the arguments make a command, since there is at least
  -- one. The task `run` runs the build of the eBPF program, that of the application, and that command: each
  -- only if all before it succeeded. If a build fails the exit code is that of a panic; else it is 0, 1 or
  -- that of a panic, as the command succeeds, fails or cannot be run.
  pub main_run :
      (program : Text) × (args : List Text) × (run_words opts ≡ program ∷ args)
      × ((main host (run_task opts)).0
          ≡ ebpf_command
            ∷ (if ebpf_built
                then build_command opts ∷ (if all_built then last_command program args ∷ [] else [])
                else []))
      × ((main host (run_task opts)).1
          ≡ (if all_built then code_of (host (last_command program args)) else 101))
  main_run =
      let (program, args, words) =
        words-cons (split_terminator (trim opts.runner)) (bin_path opts) opts.run_args in
      let (log, code) = main_run_of program args words in (program, args, words, log, code)
