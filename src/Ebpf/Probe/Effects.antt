-- ===== src/Ebpf/Probe/Effects.antt =====
-- What one call of `try_jbm` reports, and what it leaves in START_TIMES.
use mathlib.Core.List.{append-nil}
use jbm.Prelude.{
  ℕ, ◌-◌, ◌/◌, ◌≡◌, inl, inr, Bool, ◌&&◌, List, [], ◌∷◌, ◌++◌, Option, none, some, Result, ok,
  arith, u32, u32_mod, leb, ◌==◌, if◌then◌else◌, Option-cases,
}
use jbm.Common.{Config}
use jbm.Ebpf.StartTimes.{StartTimes}
use jbm.Ebpf.Probe.{Switch, Effect, output, send_signal, sigprof, Kernel, report, wake, resume}

abbrev pub current_pid : Switch → ℕ
current_pid p = u32 p.pid_tgid

abbrev pub current_tgid : Switch → ℕ
current_tgid p = u32 (p.pid_tgid / u32_mod)

-- The time off the CPU in microseconds, of a thread that went off it at `t_start`.
abbrev pub off_time : Switch → ℕ → ℕ
off_time p t_start = (p.t_end - t_start) / 1000

-- A thread of the target comes back on the CPU after a time within the bounds.
abbrev pub is_block : Config → Switch → ℕ → Bool
is_block config p t_start =
    (current_tgid p == config.target_tgid)
    && leb t_start p.t_end
    && leb config.min_block_us (off_time p t_start)
    && leb (off_time p t_start) config.max_block_us

-- The record and the signal, if the kernel gives the two stacks and the name.
abbrev pub record_of : Switch → ℕ → Result ℕ ℕ → Result ℕ ℕ → Result (List ℕ) ℕ → List Effect
record_of p t_start (ok kernel_stack) (ok user_stack) (ok name) =
    output (record {
      pid = current_pid p;
      tgid = current_tgid p;
      user_stack_id = user_stack;
      kernel_stack_id = kernel_stack;
      name = name;
      offtime = off_time p t_start;
      t_start = t_start;
      t_end = p.t_end;
    })
    ∷ (send_signal (current_pid p) sigprof ∷ [])
record_of p t_start _ _ _ = []

-- What a call does when the start time of the current thread is as given.
abbrev pub reports_of : Config → Switch → Option ℕ → List Effect
reports_of config p none = []
reports_of config p (some t_start) =
    if is_block config p t_start then record_of p t_start p.kernel_stack p.user_stack p.comm else []

module _ (S : StartTimes) (config : Config) where
  report-effects :
      (p : Switch) (t_start : ℕ) (k : Kernel S)
      → (report S config p t_start (off_time p t_start) k).0 ≡ (record k {
        effects = k.effects ++ record_of p t_start p.kernel_stack p.user_stack p.comm;
      })
  unfolding report
  report-effects p t_start k = ground (arith, append-nil k.effects)

  wake-effects :
      (p : Switch) (t_start : ℕ) (k : Kernel S) {m : S.Map}
      → S.remove (current_pid p) k.start_times ≡ ok m
      → (wake S config p t_start k).0
        ≡ record { start_times = m; effects = k.effects ++ reports_of config p (some t_start) }
  unfolding wake
  wake-effects p t_start k {m} e =
      ground (arith, append-nil k.effects, report-effects p t_start (record k { start_times = m }))

  -- The call from `resume` on: the start time of the current thread is used up.
  pub resume-times :
      (p : Switch) (k : Kernel S) (j : ℕ)
      → S.get j (resume S config p k).0.start_times
        ≡ (if current_pid p == j then none else S.get j k.start_times)
  unfolding resume
  resume-times p k j = elim (Option-cases (S.get (current_pid p) k.start_times)) [
    | inl e ↦ ground (arith, e)
    | inr (t, e) ↦
        let (m, removed) = S.remove_present (current_pid p) k.start_times e in
        ground (
          arith,
          e,
          removed,
          wake-effects p t k removed,
          S.get-remove j (current_pid p) k.start_times removed,
        )
  ]

  pub resume-effects :
      (p : Switch) (k : Kernel S)
      → (resume S config p k).0.effects
        ≡ k.effects ++ reports_of config p (S.get (current_pid p) k.start_times)
  unfolding resume
  resume-effects p k = elim (Option-cases (S.get (current_pid p) k.start_times)) [
    | inl e ↦ ground (arith, e, append-nil k.effects)
    | inr (t, e) ↦
        let (m, removed) = S.remove_present (current_pid p) k.start_times e in
        ground (arith, e, removed, wake-effects p t k removed)
  ]
