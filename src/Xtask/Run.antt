-- ===== src/Xtask/Run.antt =====
-- `run` (xtask/src/run.rs), and `main` (xtask/src/main.rs).
pub mod Laws
use jbm.Prelude.{
  ℕ, Bool, true, false, List, [], ◌∷◌, ◌++◌, Option, none, some, Result, ok, err, Text, codes,
  if◌then◌else◌,
}
use jbm.Xtask.{Command, Outcome, done, bails, panics, M, context, ◌>>=◌, ◌>>◌}
use jbm.Xtask.Architecture.{Architecture}
use jbm.Xtask.BuildEbpf.{BuildOptions, Host, release_flag, status, assert_success, build_ebpf}
use jbm.Xtask.Words.{trim, split_terminator, join}

pub record Options : Type 0 where
  pub bpf_target : Architecture
  pub release : Bool
  pub runner : Text
  pub run_args : List Text

abbrev pub build_command : Options → Command
build_command opts = record {
  program = codes "cargo";
  args = codes "build" ∷ release_flag opts.release;
  current_dir = none;
  env_remove = [];
}

pub build : Host → Options → M (Unit {0})
unfolding status
build host opts = do result ← status host (build_command opts); assert_success result

abbrev pub bin_path : Options → Text
bin_path opts =
    codes "target/" ++ ((if opts.release then codes "release" else codes "debug") ++ codes "/jbm")

-- The words of the command to run.
abbrev pub run_words : Options → List Text
run_words opts = split_terminator (trim opts.runner) ++ (bin_path opts ∷ opts.run_args)

-- `args.first().expect(…)` and `args.iter().skip(1)`
abbrev pub command_of : List Text → Option Command
command_of [] = none
command_of (program ∷ args) =
    some (record { program = program; args = args; current_dir = none; env_remove = [] })

-- `.expect(…)` and then `bail!` on a failure.
abbrev pub check_run : List Text → Result Bool Text → M (Unit {0})
check_run words (err e) log = (log, panics)
check_run words (ok success) log =
    if success
    then (log, done tt)
    else (log, bails (codes "Failed to run `" ++ (join words ++ codes "`")))

abbrev pub run_command : Host → List Text → Option Command → M (Unit {0})
run_command host words none log = (log, panics)
run_command host words (some command) log = (status host command >>= check_run words) log

unfoldable pub run : Host → Options → M (Unit {0})
unfolding status build_ebpf build
run host opts = do
  context (codes "Error while building eBPF program")
      (build_ebpf host (record { target = opts.bpf_target; release = opts.release }))
  context (codes "Error while building userspace application") (build host opts)
  run_command host (run_words opts) (command_of (run_words opts))

pub data Task : Type 0 where
  build_ebpf_task : BuildOptions → Task
  run_task : Options → Task

-- The exit code; 101 is that of a panic.
abbrev pub exit_code : Outcome (Unit {0}) → ℕ
exit_code (done _) = 0
exit_code (bails e) = 1
exit_code panics = 101

abbrev task_of : Host → Task → M (Unit {0})
task_of host (build_ebpf_task opts) = build_ebpf host opts
task_of host (run_task opts) = run host opts

unfoldable pub main : Host → Task → List Command × ℕ
main host task = let (log, outcome) = task_of host task [] in (log, exit_code outcome)
