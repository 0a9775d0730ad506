-- ===== src/Ebpf/Probe/History/Blocked.antt =====
-- What the records of `try_jbm` (jbm-ebpf/src/main.rs) have to do with the calls so far.
use jbm.Prelude.{
  ℕ, ◌-◌, ◌/◌, ◌≤◌, ◌≡◌, refl, true, ◌⊎◌, Bool-cases, List, [], ◌∷◌, ◌++◌, Option, none, some,
  Result, ok, err, arith, inl, inr,
}
use jbm.Common.{Config, BlockEvent}
use jbm.Ebpf.Probe.{Task, Switch, Effect, output, send_signal, sigprof}
use jbm.Ebpf.Probe.Effects.{current_pid, current_tgid, is_block, record_of, reports_of}

-- In the call thread `pid` of the target goes off the CPU, at `t`.
pub record GoesOff (config : Config) (p : Switch) (pid t : ℕ) : Type 0 where
  pub task : Task
  pub is_prev : p.prev ≡ some task
  pub reads_pid : task.pid ≡ ok pid
  pub reads_tgid : task.tgid ≡ ok config.target_tgid
  pub at : p.ts ≡ t

-- It did so in one of the calls.
abbrev pub WentOff : Config → List Switch → ℕ → ℕ → Type 0
WentOff config [] pid t = ⊥
WentOff config (p ∷ ps) pid t = GoesOff config p pid t ⊎ WentOff config ps pid t

-- In one of the calls the thread of the record is the current one, at `t_end`, and in this call or an
-- earlier one it went off, at `t_start`.
abbrev pub CameBack : Config → List Switch → BlockEvent → Type 0
CameBack config [] e = ⊥
CameBack config (p ∷ ps) e =
    ((e.pid ≡ current_pid p)
      × (e.tgid ≡ current_tgid p)
      × (e.t_end ≡ p.t_end)
      × WentOff config (p ∷ ps) e.pid e.t_start)
    ⊎ CameBack config ps e

-- A thread of the target that went off and came back, after a time within the bounds.
pub record IsBlocked (config : Config) (ps : List Switch) (e : BlockEvent) : Type 0 where
  pub came_back : CameBack config ps e
  pub of_target : e.tgid ≡ config.target_tgid
  pub ordered : e.t_start ≤ e.t_end
  pub micros : e.offtime ≡ (e.t_end - e.t_start) / 1000
  pub long_enough : config.min_block_us ≤ e.offtime
  pub short_enough : e.offtime ≤ config.max_block_us

-- The effects are records of blocked threads, each followed by the signal to its thread.
abbrev pub Reports : Config → List Switch → List Effect → Type 0
Reports config ps [] = Unit {0}
Reports config ps (send_signal pid sig ∷ es) = ⊥
Reports config ps (output e ∷ []) = ⊥
Reports config ps (output e ∷ (output e' ∷ es)) = ⊥
Reports config ps (output e ∷ (send_signal pid sig ∷ es)) =
    IsBlocked config ps e × (pid ≡ e.pid) × (sig ≡ sigprof) × Reports config ps es

pub Reports-append :
    (config : Config) (ps : List Switch) (es fs : List Effect)
    → Reports config ps es
    → Reports config ps fs
    → Reports config ps (es ++ fs)
Reports-append config ps [] fs h k = k
Reports-append config ps (send_signal pid sig ∷ es) fs h k = absurd h
Reports-append config ps (output e ∷ []) fs h k = absurd h
Reports-append config ps (output e ∷ (output e' ∷ es)) fs h k = absurd h
Reports-append config ps (output e ∷ (send_signal pid sig ∷ es)) fs h k =
    (h.0, h.1, h.2, Reports-append config ps es fs h.3 k)

-- After one more call.
pub Reports-more :
    (config : Config) (p : Switch) (ps : List Switch) (es : List Effect)
    → Reports config ps es
    → Reports config (p ∷ ps) es
Reports-more config p ps [] h = tt
Reports-more config p ps (send_signal pid sig ∷ es) h = absurd h
Reports-more config p ps (output e ∷ []) h = absurd h
Reports-more config p ps (output e ∷ (output e' ∷ es)) h = absurd h
Reports-more config p ps (output e ∷ (send_signal pid sig ∷ es)) h =
    let b = h.0 in
    (
      record {
        came_back = inr b.came_back;
        of_target = b.of_target;
        ordered = b.ordered;
        micros = b.micros;
        long_enough = b.long_enough;
        short_enough = b.short_enough;
      },
      h.1,
      h.2,
      Reports-more config p ps es h.3,
    )

record_of-Reports :
    (config : Config) (p : Switch) (ps : List Switch) (t : ℕ) (kernel_stack user_stack : Result ℕ ℕ)
    (comm : Result (List ℕ) ℕ)
    → WentOff config (p ∷ ps) (current_pid p) t
    → is_block config p t ≡ true
    → Reports config (p ∷ ps) (record_of p t kernel_stack user_stack comm)
record_of-Reports config p ps t (err _) user_stack comm off e = tt
record_of-Reports config p ps t (ok a) (err _) comm off e = tt
record_of-Reports config p ps t (ok a) (ok b) (err _) off e = tt
record_of-Reports config p ps t (ok a) (ok b) (ok name) off e = (
  record {
    came_back = inl (refl, refl, refl, off);
    of_target = ground (arith, e);
    ordered = ground (arith, e);
    micros = refl;
    long_enough = ground (arith, e);
    short_enough = ground (arith, e);
  },
  refl,
  refl,
  tt,
)

pub reports_of-Reports :
    (config : Config) (p : Switch) (ps : List Switch) (o : Option ℕ)
    → ((t : ℕ) → o ≡ some t → WentOff config (p ∷ ps) (current_pid p) t)
    → Reports config (p ∷ ps) (reports_of config p o)
reports_of-Reports config p ps none off = tt
reports_of-Reports config p ps (some t) off = elim (Bool-cases (is_block config p t)) [
  | inl e ↦ rw e (record_of-Reports config p ps t p.kernel_stack p.user_stack p.comm (off t refl) e)
  | inr e ↦ rw e tt
]
