-- ===== src/Provider/Lifecycle.antt =====
-- How `AsyncProfilerStackTraceProvider` (jbm/src/async_profiler.rs) starts and stops the profiler: the
-- commands that it runs, and what they give.
use jbm.Prelude.{
  ℕ, ◌≡◌, Bool, List, [], ◌∷◌, ◌++◌, Option, none, some, Result, ok, err, Text, codes, arith, ◌==◌,
  if◌then◌else◌,
}
use jbm.Report.{decimal}

-- How a command that was spawned ends: with an exit code, or by a signal; waiting for it may fail.
abbrev pub Exit : Type 0
Exit = Result (Option ℕ) Text

-- What the operating system answers. `none` for an exit code is a death by a signal.
pub record Host : Type 0 where
  -- The path of a new temporary file.
  pub tempfile : Result Text Text
  -- `File::open`, for a path
  pub open_file : Text → Result (Unit {0}) Text
  -- `spawn` and then `wait`, for the arguments of the command.
  pub spawn : List Text → Result Exit Text

abbrev pub args : Text → ℕ → Text → List Text
args path pid subcommand =
    codes "-e"
    ∷ (codes "none"
        ∷ (codes "-o"
            ∷ (codes "stream" ∷ (codes "-f" ∷ (path ∷ (subcommand ∷ (decimal pid ∷ [])))))))

-- `status.code().unwrap_or(-1)` is compared with 0 alone.
unfoldable pub checked : Exit → Result (Unit {0}) Text
checked (err e) = err e
checked (ok none) = err (codes "async-profiler command exit with error: -1")
checked (ok (some code)) =
    if code == 0
    then ok tt
    else err (codes "async-profiler command exit with error: " ++ decimal code)

-- The commands so far, oldest first, and a result.
abbrev pub Run : Type 0 → Type 0
Run A = List (List Text) × Result A Text

abbrev outcome : Result Exit Text → Result (Unit {0}) Text
outcome (err e) = err e
outcome (ok exit) = checked exit

module _ (h : Host) (pid : ℕ) where
  unfoldable pub exec_profiler_cmd : Text → Text → List (List Text) → Run (Unit {0})
  exec_profiler_cmd path subcommand log =
      (log ++ (args path pid subcommand ∷ []), outcome (h.spawn (args path pid subcommand)))

  -- `drop`, where an error is only logged. `alive` is what `pid_alive` says.
  unfoldable pub drop_provider : Bool → Text → List (List Text) → List (List Text)
  unfolding exec_profiler_cmd
  drop_provider alive path log =
      if alive then (exec_profiler_cmd path (codes "stop") log).0 else log

  -- On an error the provider, which is there already, is dropped.
  abbrev or_drop : Bool → Text → Run (Unit {0}) → Run Text
  or_drop alive path (log, ok _) = (log, ok path)
  or_drop alive path (log, err e) = (drop_provider alive path log, err e)

  abbrev with_file : Bool → Text → Result (Unit {0}) Text → Run Text
  with_file alive path (err e) = ([], err e)
  with_file alive path (ok _) = or_drop alive path (exec_profiler_cmd path (codes "start") [])

  -- The provider is known by the path of its file.
  unfoldable pub start_provider : Bool → Run Text
  start_provider alive = elim h.tempfile [
    | err e ↦ ([], err e)
    | ok path ↦ with_file alive path (h.open_file path)
  ]

  abbrev end_of : Bool → Run Text → List (List Text)
  end_of alive (log, ok path) = drop_provider alive path log
  end_of alive (log, err e) = log

  -- The commands from the start of a provider to its end.
  unfoldable pub session : Bool → List (List Text)
  session alive = end_of alive (start_provider alive)

  -- Once there is a file to write to, the profiler is told to start and, if the target lives at the end,
  -- told to stop, once each and on the same file, also where the start fails.
  pub session-commands :
      (alive : Bool) (path : Text)
      → h.tempfile ≡ ok path
      → h.open_file path ≡ ok tt
      → session alive
        ≡ args path pid (codes "start") ∷ (if alive then args path pid (codes "stop") ∷ [] else [])
  unfolding session start_provider drop_provider exec_profiler_cmd checked
  session-commands alive path file opened = ground (arith, file, opened)

  -- A provider is given only if the start command exits with 0, and then no other command has run.
  start_provider-ok :
      (alive : Bool) (path : Text) {log : List (List Text)}
      → start_provider alive ≡ (log, ok path)
      → (h.spawn (args path pid (codes "start")) ≡ ok (ok (some 0)))
        × (log ≡ args path pid (codes "start") ∷ [])
  unfolding start_provider drop_provider exec_profiler_cmd checked
  start_provider-ok alive path e = ground (arith, e)
