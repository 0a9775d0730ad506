-- ===== src/Ebpf/Probe/Intervals.antt =====
-- The map START_TIMES refines the history of the switches: at each time it holds, for a thread of the
-- target, when the thread went off the CPU, if it has not come back since.
use jbm.Prelude.{
  ℕ, ◌≡◌, List, [], ◌∷◌, ◌++◌, Option, none, some, Result, ok, arith, ◌==◌, if◌then◌else◌, inl, inr,
  Result-cases,
}
use jbm.Common.{Config}
use jbm.Ebpf.StartTimes.{StartTimes}
use jbm.Ebpf.Probe.{Task, Switch, Effect, Kernel, resume, suspend, try_jbm}
use jbm.Ebpf.Probe.Effects.{current_pid, reports_of, resume-times, resume-effects}
use jbm.Ebpf.Probe.History.{run, suspend-effects}

-- The ids of the task that goes off the CPU, where the program can read them.
abbrev ids_of_task : Result ℕ ℕ → Result ℕ ℕ → Option (ℕ × ℕ)
ids_of_task (ok pid) (ok tgid) = some (pid, tgid)
ids_of_task _ _ = none

abbrev pub ids_of : Option Task → Option (ℕ × ℕ)
ids_of none = none
ids_of (some t) = ids_of_task t.pid t.tgid

-- When the thread went off, after the task of the call is noted.
abbrev pub noted : Config → ℕ → ℕ → Option (ℕ × ℕ) → Option ℕ → Option ℕ
noted config ts j none before = before
noted config ts j (some (pid, tgid)) before =
    if tgid == config.target_tgid then if pid == j then some ts else before else before

-- Since when a thread is off the CPU, by the calls so far, newest first.
abbrev pub off_since : Config → List Switch → ℕ → Option ℕ
off_since config [] j = none
off_since config (p ∷ ps) j =
    let before = off_since config ps j in
    if current_pid p == j then none else noted config p.ts j (ids_of p.prev) before

-- The start time that a call finds for the thread that it resumes.
abbrev pub found_by : Config → Switch → List Switch → Option ℕ
found_by config p ps =
    noted config p.ts (current_pid p) (ids_of p.prev) (off_since config ps (current_pid p))

-- What the calls report, oldest first.
abbrev pub all_reports : Config → List Switch → List Effect
all_reports config [] = []
all_reports config (p ∷ ps) = all_reports config ps ++ reports_of config p (found_by config p ps)

module _ (S : StartTimes) (config : Config) where
  -- The ids of the task can be read, and its start time is written if it is of the target.
  pub record IsNoted (p : Switch) (k : Kernel S) : Type 0 where
    pub task : Task
    pub pid : ℕ
    pub tgid : ℕ
    pub is_prev : p.prev ≡ some task
    pub reads_pid : task.pid ≡ ok pid
    pub reads_tgid : task.tgid ≡ ok tgid
    pub writes : (suspend S config p pid tgid k).1 ≡ ok tt

  -- So it is in every call.
  abbrev pub AllNoted : Kernel S → List Switch → Type 0
  AllNoted k [] = Unit {0}
  AllNoted k (p ∷ ps) = IsNoted p (run S config k ps) × AllNoted k ps

  suspend-times :
      (p : Switch) (a b : ℕ) (k : Kernel S) (j : ℕ)
      → (suspend S config p a b k).1 ≡ ok tt
      → S.get j (suspend S config p a b k).0.start_times
        ≡ noted config p.ts j (some (a, b)) (S.get j k.start_times)
  unfolding suspend
  suspend-times p a b k j e = elim (Result-cases (S.insert a p.ts k.start_times)) [
    | inl (m, f) ↦ ground (arith, f, S.get-insert j a p.ts k.start_times f)
    | inr (_, f) ↦ ground (arith, f)
  ]

  try_jbm-noted :
      (p : Switch) (k : Kernel S) (h : IsNoted p k)
      → (try_jbm S config p k).0 ≡ (resume S config p (suspend S config p h.pid h.tgid k).0).0
  unfolding try_jbm
  try_jbm-noted p k h = ground (arith, h.is_prev, h.reads_pid, h.reads_tgid, h.writes)

  ids_of-noted :
      (p : Switch) (k : Kernel S) (h : IsNoted p k) → ids_of p.prev ≡ some (h.pid, h.tgid)
  ids_of-noted p k h = rw (h.is_prev, h.reads_pid, h.reads_tgid)

  call-times :
      (p : Switch) (k : Kernel S) (j : ℕ)
      → IsNoted p k
      → S.get j (try_jbm S config p k).0.start_times ≡ (
          if current_pid p == j
          then none
          else noted config p.ts j (ids_of p.prev) (S.get j k.start_times))
  call-times p k j h =
      rw (try_jbm-noted p k h, ids_of-noted p k h)
        (rw (
          resume-times S config p (suspend S config p h.pid h.tgid k).0 j,
          suspend-times p h.pid h.tgid k j h.writes,
        ))

  call-effects :
      (p : Switch) (k : Kernel S)
      → IsNoted p k
      → (try_jbm S config p k).0.effects
        ≡ k.effects
          ++ reports_of config p (
              noted config p.ts
                (current_pid p)
                (ids_of p.prev)
                (S.get (current_pid p) k.start_times))
  call-effects p k h =
      rw (try_jbm-noted p k h, ids_of-noted p k h)
        (rw (
          resume-effects S config p (suspend S config p h.pid h.tgid k).0,
          suspend-times p h.pid h.tgid k (current_pid p) h.writes,
          suspend-effects S config p h.pid h.tgid k,
        ))

  -- If START_TIMES was empty at the start, and every call could read the ids of the task that goes off the
  -- CPU and could write its start time, then START_TIMES holds for each thread since when it is off the CPU: the time of the last call in
  -- which it went off as a thread of the target, if no later call has it come back; and nothing else.
  pub run-off_since :
      (k : Kernel S) (ps : List Switch) (j : ℕ)
      → ((i : ℕ) → S.get i k.start_times ≡ none)
      → AllNoted k ps
      → S.get j (run S config k ps).start_times ≡ off_since config ps j
  unfolding run
  run-off_since k [] j empty h = empty j
  run-off_since k (p ∷ ps) j empty h =
      rw (call-times p (run S config k ps) j h.0, run-off_since k ps j empty h.1)

  -- If START_TIMES and the effects were empty at the start, and every call could read the ids of the task
  -- that goes off the CPU and could write its start time, then the records and signals of all calls are
  -- those of the calls that end a block, in order: a call reports exactly if it resumes a thread of the
  -- target that went off the CPU at an earlier time on record, the time is within the bounds, and the
  -- kernel gives both stacks and the name.
  pub run-all_reports :
      (k : Kernel S) (ps : List Switch)
      → ((i : ℕ) → S.get i k.start_times ≡ none)
      → k.effects ≡ []
      → AllNoted k ps
      → (run S config k ps).effects ≡ all_reports config ps
  unfolding run
  run-all_reports k [] empty none_yet h = none_yet
  run-all_reports k (p ∷ ps) empty none_yet h = rw (
    call-effects p (run S config k ps) h.0,
    run-off_since k ps (current_pid p) empty h.1,
    run-all_reports k ps empty none_yet h.1,
  )
