-- ===== src/Ebpf/Probe/History.antt =====
-- Many calls: the switches of all CPUs, in the order of their calls (newest first in a list).
pub mod Blocked
use jbm.Prelude.{
  ℕ, ◌-◌, ◌≡◌, refl, subst, ◌==◌, Bool-cases, List, [], ◌∷◌, ◌++◌, Option, some, Result, ok, err,
  arith, inl, inr, Result-cases, Option-cases,
}
use jbm.Common.{Config}
use jbm.Ebpf.StartTimes.{StartTimes}
use jbm.Ebpf.Probe.{Task, Switch, Kernel, resume, suspend, try_jbm, continue}
use jbm.Ebpf.Probe.Effects.{current_pid, reports_of, resume-times, resume-effects}
use jbm.Ebpf.Probe.History.Blocked.{
  WentOff, Reports, Reports-append, Reports-more, reports_of-Reports,
}

module _ (S : StartTimes) (config : Config) where
  -- A list of calls, the newest first.
  unfoldable pub run : Kernel S → List Switch → Kernel S
  run k [] = k
  run k (p ∷ ps) = (try_jbm S config p (run k ps)).0

  pub suspend-effects :
      (p : Switch) (a b : ℕ) (k : Kernel S) → (suspend S config p a b k).0.effects ≡ k.effects
  unfolding suspend
  suspend-effects p a b k = ground arith

  -- The state after a call, by how far it comes.
  pub try_jbm_cases {ℓ} :
      (P : Kernel S → Type ℓ) (p : Switch) (k : Kernel S)
      → P k
      → ((task : Task) (a b : ℕ) (k' : Kernel S)
          → p.prev ≡ some task
          → task.pid ≡ ok a
          → task.tgid ≡ ok b
          → (suspend S config p a b k).0 ≡ k'
          → P k' × P (resume S config p k').0)
      → P (try_jbm S config p k).0
  unfolding try_jbm
  try_jbm_cases P p k early late = elim (Option-cases p.prev) [
    | inl e ↦ rw (e, try_jbm) early
    | inr (task, e) ↦ elim (Result-cases task.pid) [
      | inr (_, f) ↦ rw (e, f, try_jbm) early
      | inl (a, f) ↦ elim (Result-cases task.tgid) [
        | inr (_, g) ↦ rw (e, f, g, try_jbm) early
        | inl (b, g) ↦
            rw (e, f, g, try_jbm) (ends (suspend S config p a b k) (late task a b _ e f g refl))
      ]
    ]
  ]
    where
      ends :
          (r : Kernel S × Result (Unit {0}) ℕ)
          → P r.0 × P (resume S config p r.0).0
          → P (continue (λ _. resume S config p) r).0
      ends (k', ok _) h = h.1
      ends (k', err _) h = h.0

  -- Each start time is that of a call in which the thread went off.
  abbrev pub AreTimes : List Switch → Kernel S → Type 0
  AreTimes ps k = (j t : ℕ) → S.get j k.start_times ≡ some t → WentOff config ps j t

  record Follows (ps : List Switch) (k : Kernel S) : Type 0 where
    times : AreTimes ps k
    reports : Reports config ps k.effects

  suspend-AreTimes :
      (p : Switch) (ps : List Switch) (task : Task) (a b : ℕ) (k : Kernel S)
      → p.prev ≡ some task
      → task.pid ≡ ok a
      → task.tgid ≡ ok b
      → AreTimes ps k
      → AreTimes (p ∷ ps) (suspend S config p a b k).0
  unfolding suspend
  suspend-AreTimes p ps task a b k e f g h j t got = elim (Bool-cases (b == config.target_tgid)) [
    | inr other ↦ inr (h j t (ground (arith, got, other)))
    | inl target ↦ elim (Result-cases (S.insert a p.ts k.start_times)) [
      | inr (_, full) ↦ inr (h j t (ground (arith, got, target, full)))
      | inl (m, put) ↦ elim (Bool-cases (a == j)) [
        | inr miss ↦ inr (
            h j t (ground (arith, got, target, put, miss, S.get-insert j a p.ts k.start_times put)))
        | inl hit ↦ inl (record {
          task = task;
          is_prev = e;
          reads_pid = ground (arith, f, hit);
          reads_tgid = ground (arith, g, target);
          at = ground (arith, got, target, put, hit, S.get-insert j a p.ts k.start_times put);
        })
      ]
    ]
  ]

  resume-Follows :
      (p : Switch) (ps : List Switch) (k : Kernel S)
      → Follows (p ∷ ps) k
      → Follows (p ∷ ps) (resume S config p k).0
  resume-Follows p ps k h =
      let found = S.get (current_pid p) k.start_times in
      record {
        times = λ j t got. h.times j t (ground (arith, got, resume-times S config p k j));
        reports = rw (resume-effects S config p k) (
            Reports-append config (p ∷ ps) k.effects (reports_of config p found) h.reports
              (reports_of-Reports config p ps found (λ t e. h.times (current_pid p) t e)));
      }

  try_jbm-Follows :
      (p : Switch) (ps : List Switch) (k : Kernel S)
      → Follows ps k
      → Follows (p ∷ ps) (try_jbm S config p k).0
  try_jbm-Follows p ps k h =
      let more = Reports-more config p ps k.effects h.reports in
      try_jbm_cases (Follows (p ∷ ps)) p k
        (record { times = λ j t got. inr (h.times j t got); reports = more })
        λ task a b k' e f g same.
          let noted : Follows (p ∷ ps) k' = subst (Follows (p ∷ ps)) same (record {
            times = suspend-AreTimes p ps task a b k e f g h.times;
            reports = rw (suspend-effects p a b k) more;
          }) in
          (noted, resume-Follows p ps k' noted)

  run-Follows :
      (k : Kernel S) (old ps : List Switch) → Follows old k → Follows (ps ++ old) (run k ps)
  unfolding run
  run-Follows k old [] h = h
  run-Follows k old (p ∷ ps) h = try_jbm-Follows p (ps ++ old) (run k ps) (run-Follows k old ps h)

  -- Whatever the context and the helpers give in each call, failed reads and a full map included, as long as
  -- an entry of the map that is there can be removed: each record that the program writes is of a thread of
  -- the target that was the current one in some call, at `t_end`, and that went off the CPU in this call or
  -- an earlier one, at `t_start`; `offtime` is the time between the two in microseconds and within the
  -- configured bounds; and SIGPROF to the same thread follows each record. At the start, this holds of the
  -- effects so far and the start times in the map are those of earlier calls.
  pub run-Reports :
      (k : Kernel S) (old ps : List Switch)
      → AreTimes old k
      → Reports config old k.effects
      → Reports config (ps ++ old) (run k ps).effects
  run-Reports k old ps times reports =
      (run-Follows k old ps (record { times = times; reports = reports })).reports
