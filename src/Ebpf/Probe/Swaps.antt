-- ===== src/Ebpf/Probe/Swaps.antt =====
-- Calls on two CPUs: their order does not matter when they are about different threads.
use mathlib.Core.List.{append_assoc, Perm, perm_append_comm}
use mathlib.Core.List.Perm
use jbm.Prelude.{ℕ, ◌≡◌, ◌≢◌, refl, sym, ◌∙◌, List, [], ◌∷◌, ◌++◌, none, some, arith}
use jbm.Common.{Config}
use jbm.Ebpf.StartTimes.{StartTimes}
use jbm.Ebpf.Probe.{Switch, Kernel}
use jbm.Ebpf.Probe.Effects.{current_pid, reports_of}
use jbm.Ebpf.Probe.History.{run}
use jbm.Ebpf.Probe.Intervals.{
  ids_of, noted, off_since, found_by, all_reports, AllNoted, run-off_since, run-all_reports,
}

-- Neither the thread that goes off the CPU nor the one that comes on it is the same in the two calls, or
-- goes off in the one and comes on in the other.
pub record AreApart (p q : Switch) : Type 0 where
  pub prev_p : ℕ × ℕ
  pub prev_q : ℕ × ℕ
  pub ids_p : ids_of p.prev ≡ some prev_p
  pub ids_q : ids_of q.prev ≡ some prev_q
  pub off_off : prev_p.0 ≢ prev_q.0
  pub off_on : prev_p.0 ≢ current_pid q
  pub on_off : current_pid p ≢ prev_q.0
  pub on_on : current_pid p ≢ current_pid q

AreApart-flip : {p q : Switch} → AreApart p q → AreApart q p
AreApart-flip a = record {
  prev_p = a.prev_q;
  prev_q = a.prev_p;
  ids_p = a.ids_q;
  ids_q = a.ids_p;
  off_off = λ e. a.off_off (sym e);
  off_on = λ e. a.on_off (sym e);
  on_off = λ e. a.off_on (sym e);
  on_on = λ e. a.on_on (sym e);
}

module _ (config : Config) (p q : Switch) (h : List Switch) (apart : AreApart p q) where
  off_since-swap : (j : ℕ) → off_since config (p ∷ q ∷ h) j ≡ off_since config (q ∷ p ∷ h) j
  off_since-swap j =
      rw (apart.ids_p, apart.ids_q)
        (ground (arith, apart.off_off, apart.off_on, apart.on_off, apart.on_on))

  -- The other call is not noticed.
  found_by-apart : found_by config p (q ∷ h) ≡ found_by config p h
  found_by-apart = rw (apart.ids_p, apart.ids_q) (ground (arith, apart.on_off, apart.on_on))

-- Two histories that leave the same times, and have reported the same in some order.
record Agree (config : Config) (h h' : List Switch) : Type 0 where
  times : (j : ℕ) → off_since config h j ≡ off_since config h' j
  reports : Perm (all_reports config h) (all_reports config h')

swap-Agree :
    (config : Config) (p q : Switch) (h : List Switch)
    → AreApart p q
    → Agree config (p ∷ q ∷ h) (q ∷ p ∷ h)
swap-Agree config p q h apart = record {
  times = off_since-swap config p q h apart;
  reports =
      rw (found_by-apart config p q h apart, found_by-apart config q p h (AreApart-flip apart))
        (rw
          (
            append_assoc (all_reports config h) (reports_of config q (found_by config q h))
                (reports_of config p (found_by config p h)),
            append_assoc (all_reports config h) (reports_of config p (found_by config p h))
                (reports_of config q (found_by config q h)),
          )
          (Perm.append_left (all_reports config h) (
            perm_append_comm (reports_of config q (found_by config q h))
              (reports_of config p (found_by config p h)))));
}

-- Later calls keep the agreement.
later-Agree :
    (config : Config) (later h h' : List Switch)
    → Agree config h h'
    → Agree config (later ++ h) (later ++ h')
later-Agree config [] h h' a = a
later-Agree config (p ∷ later) h h' a =
    let b = later-Agree config later h h' a in
    record {
      times = λ j. rw (b.times j) refl;
      reports = rw (b.times (current_pid p)) (
          Perm.append_right
            (reports_of config p (
              noted config p.ts (current_pid p) (ids_of p.prev)
                (off_since config (later ++ h') (current_pid p))))
            b.reports);
    }

module _ (S : StartTimes) (config : Config) where
  -- Two calls that follow one another and are about different threads, as calls on two CPUs can be, may
  -- come in either order: after any later calls START_TIMES holds the same times, and the records and
  -- signals are the same but for their order. START_TIMES and the effects were empty at the start, and in
  -- either order every call could read the ids of the task that goes off the CPU and write its start time.
  pub run-swap :
      (k : Kernel S) (later : List Switch) (p q : Switch) (h : List Switch) (j : ℕ)
      → ((i : ℕ) → S.get i k.start_times ≡ none)
      → k.effects ≡ []
      → AreApart p q
      → AllNoted S config k (later ++ (p ∷ q ∷ h))
      → AllNoted S config k (later ++ (q ∷ p ∷ h))
      → let one = run S config k (later ++ (p ∷ q ∷ h)) in
        let other = run S config k (later ++ (q ∷ p ∷ h)) in
        (S.get j one.start_times ≡ S.get j other.start_times) × Perm one.effects other.effects
  run-swap k later p q h j empty none_yet apart one other =
      let a = later-Agree config later (p ∷ q ∷ h) (q ∷ p ∷ h) (swap-Agree config p q h apart) in
      (
        run-off_since S config k (later ++ (p ∷ q ∷ h)) j empty one
            ∙ (a.times j ∙ sym (run-off_since S config k (later ++ (q ∷ p ∷ h)) j empty other)),
        rw
            (
              run-all_reports S config k (later ++ (p ∷ q ∷ h)) empty none_yet one,
              run-all_reports S config k (later ++ (q ∷ p ∷ h)) empty none_yet other,
            )
            a.reports,
      )
