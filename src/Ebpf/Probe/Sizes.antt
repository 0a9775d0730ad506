-- ===== src/Ebpf/Probe/Sizes.antt =====
-- The fields of the records fit their widths, if what the kernel answers does.
use jbm.Prelude.{
  ℕ, ◌≡◌, ◌<◌, refl, subst, List, [], ◌∷◌, Option, none, some, Result, ok, err, All, All-append,
  arith, length, u64_mod, Bool-cases, Result-cases, inl, inr,
}
use jbm.Common.{Config, task_comm_len}
use jbm.Wire.{IsWellSized}
use jbm.Ebpf.StartTimes.{StartTimes}
use jbm.Ebpf.Probe.{Switch, Effect, output, send_signal, Kernel, suspend, resume, try_jbm}
use jbm.Ebpf.Probe.Effects.{
  current_pid, is_block, record_of, reports_of, resume-times, resume-effects,
}
use jbm.Ebpf.Probe.History.{run, suspend-effects, try_jbm_cases}

-- The answers are words, and a name has its 16 bytes.
pub record IsSized (p : Switch) : Type 0 where
  pub ts : p.ts < u64_mod
  pub t_end : p.t_end < u64_mod
  pub kernel_stack : (id : ℕ) → p.kernel_stack ≡ ok id → id < u64_mod
  pub user_stack : (id : ℕ) → p.user_stack ≡ ok id → id < u64_mod
  pub comm : (name : List ℕ) → p.comm ≡ ok name → length name ≡ task_comm_len

abbrev pub Fits : Effect → Type 0
Fits (output e) = IsWellSized e
Fits (send_signal pid sig) = Unit {0}

record_of-Fits :
    (p : Switch) (t : ℕ) (k u : Result ℕ ℕ) (c : Result (List ℕ) ℕ)
    → IsSized p
    → t < u64_mod
    → p.kernel_stack ≡ k
    → p.user_stack ≡ u
    → p.comm ≡ c
    → All Fits (record_of p t k u c)
record_of-Fits p t (ok kernel) (ok user) (ok name) h word a b c = (
  record {
    pid_word = omega arith;
    tgid_word = omega arith;
    user_word = h.user_stack user b;
    kernel_word = h.kernel_stack kernel a;
    name_bytes = h.comm name c;
    offtime_word = omega (arith, h.t_end);
    start_word = word;
    end_word = h.t_end;
  },
  (tt, tt),
)
record_of-Fits p t (ok kernel) (ok user) (err _) h word a b c = tt
record_of-Fits p t (ok kernel) (err _) d h word a b c = tt
record_of-Fits p t (err _) u d h word a b c = tt

reports_of-Fits :
    (config : Config) (p : Switch) (o : Option ℕ)
    → IsSized p
    → ((t : ℕ) → o ≡ some t → t < u64_mod)
    → All Fits (reports_of config p o)
reports_of-Fits config p none h w = tt
reports_of-Fits config p (some t) h w = elim (Bool-cases (is_block config p t)) [
  | inl e ↦ rw e (record_of-Fits p t p.kernel_stack p.user_stack p.comm h (w t refl) refl refl refl)
  | inr e ↦ rw e tt
]

module _ (S : StartTimes) (config : Config) where
  -- Start times are words, and so are the fields of the records.
  pub record AreSized (k : Kernel S) : Type 0 where
    pub times : (j t : ℕ) → S.get j k.start_times ≡ some t → t < u64_mod
    pub effects : All Fits k.effects

  suspend-times :
      (p : Switch) (a b : ℕ) (k : Kernel S)
      → p.ts < u64_mod
      → ((j t : ℕ) → S.get j k.start_times ≡ some t → t < u64_mod)
      → (j t : ℕ) → S.get j (suspend S config p a b k).0.start_times ≡ some t
      → t < u64_mod
  unfolding suspend
  suspend-times p a b k word w j t = elim (Result-cases (S.insert a p.ts k.start_times)) [
    | inr (e, f) ↦ λ got. ground (arith, w j t, f)
    | inl (m, f) ↦ λ got. ground (arith, w j t, f, S.get-insert j a p.ts k.start_times f)
  ]

  resume-AreSized :
      (p : Switch) (k : Kernel S) → IsSized p → AreSized k → AreSized (resume S config p k).0
  resume-AreSized p k h a = record {
    times = λ j t got. ground (arith, a.times j t, resume-times S config p k j);
    effects = rw (resume-effects S config p k) (
        All-append Fits k.effects (reports_of config p (S.get (current_pid p) k.start_times))
          (reports_of-Fits config p (S.get (current_pid p) k.start_times) h
            (λ t e. a.times (current_pid p) t e))
          a.effects);
  }

  try_jbm-AreSized :
      (p : Switch) (k : Kernel S) → IsSized p → AreSized k → AreSized (try_jbm S config p k).0
  try_jbm-AreSized p k h a = try_jbm_cases S config AreSized p k a λ _ b c k' _ _ _ e.
      let k'_sized : AreSized k' = record {
        times =
            subst (λ (u : Kernel S). (j t : ℕ) → S.get j u.start_times ≡ some t → t < u64_mod) e
              (suspend-times p b c k h.ts a.times);
        effects =
            subst (λ (u : Kernel S). All Fits u.effects) e
              (rw (suspend-effects S config p b c k) a.effects);
      } in
      (k'_sized, resume-AreSized p k' h k'_sized)

  pub run-AreSized :
      (k : Kernel S) (ps : List Switch) → All IsSized ps → AreSized k → AreSized (run S config k ps)
  unfolding run
  run-AreSized k [] h a = a
  run-AreSized k (p ∷ ps) h a = try_jbm-AreSized p (run S config k ps) h.0 (run-AreSized k ps h.1 a)
