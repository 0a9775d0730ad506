-- ===== src/Ebpf/Probe.antt =====
-- `jbm` and `try_jbm`, run on each call of the kernel's `finish_task_switch`.
pub mod Effects
pub mod History
pub mod Intervals
pub mod Sizes
pub mod Swaps
use jbm.Prelude.{
  ℕ, ◌+◌, ◌-◌, ◌/◌, ◌%◌, Bool, true, false, not, ◌||◌, List, [], ◌∷◌, ◌++◌, Option, none, some,
  Result, ok, err, ok_or, u32, u32_mod, ltb, ◌==◌, if◌then◌else◌,
}
use jbm.Common.{Config, BlockEvent}
use jbm.Ebpf.StartTimes.{StartTimes}

-- The task that goes off the CPU; each read of its memory may fail.
pub record Task : Type 0 where
  pub pid : Result ℕ ℕ
  pub tgid : Result ℕ ℕ

-- What the kernel answers in one call: the context's argument, and the results of the helpers in the
-- order of the calls.
pub record Switch : Type 0 where
  pub prev : Option Task
  pub ts : ℕ
  pub pid_tgid : ℕ
  pub t_end : ℕ
  pub kernel_stack : Result ℕ ℕ
  pub user_stack : Result ℕ ℕ
  pub comm : Result (List ℕ) ℕ

-- What the program does to the outside: a record in the ring buffer EVENTS, a signal to a thread.
pub data Effect : Type 0 where
  output : BlockEvent → Effect
  send_signal : ℕ → ℕ → Effect

-- SIGPROF
abbrev pub sigprof : ℕ
sigprof = 27

module _ (S : StartTimes) where
  pub record Kernel : Type 0 where
    pub start_times : S.Map
    pub effects : List Effect

  -- State with failure: what was done before an error stays done.
  abbrev pub M : Type 0 → Type 0
  M A = Kernel → Kernel × Result A ℕ

module _ {S : StartTimes} where
  abbrev pub pure : {A : Type 0} → A → M S A
  pure a k = (k, ok a)

  abbrev pub try : {A : Type 0} → Result A ℕ → M S A
  try r k = (k, r)

  abbrev pub continue : {A B : Type 0} → (A → M S B) → Kernel S × Result A ℕ → Kernel S × Result B ℕ
  continue f (k, ok a) = f a k
  continue f (k, err e) = (k, err e)

  infixl 5 ◌>>=◌ ◌>>◌
  abbrev pub ◌>>=◌ : {A B : Type 0} → M S A → (A → M S B) → M S B
  ◌>>=◌ m f k = continue f (m k)

  abbrev pub ◌>>◌ : {B : Type 0} → M S (Unit {0}) → M S B → M S B
  m >> n = m >>= λ _. n

  with_map : Kernel S → Result S.Map ℕ → Kernel S × Result (Unit {0}) ℕ
  with_map k (ok m) = (record k { start_times = m }, ok tt)
  with_map k (err e) = (k, err e)

  insert : ℕ → ℕ → M S (Unit {0})
  unfolding with_map
  insert pid ts k = with_map k (S.insert pid ts k.start_times)

  remove : ℕ → M S (Unit {0})
  unfolding with_map
  remove pid k = with_map k (S.remove pid k.start_times)

  perform : List Effect → M S (Unit {0})
  perform es k = (record k { effects = k.effects ++ es }, ok tt)

module _ (S : StartTimes) (config : Config) where
  -- "create and submit an event", and signal the thread.
  pub report : Switch → ℕ → ℕ → M S ℕ
  unfolding perform
  report p t_start offtime = do
    kernel_stack_id ← try p.kernel_stack
    user_stack_id ← try p.user_stack
    name ← try p.comm
    let event : BlockEvent = record {
      pid = u32 p.pid_tgid;
      tgid = u32 (p.pid_tgid / u32_mod);
      user_stack_id = user_stack_id;
      kernel_stack_id = kernel_stack_id;
      name = name;
      offtime = offtime;
      t_start = t_start;
      t_end = p.t_end;
    }
    perform (output event ∷ send_signal (u32 p.pid_tgid) sigprof ∷ [])
    pure 0

  -- From the removal of the start time on.
  pub wake : Switch → ℕ → M S ℕ
  unfolding remove report
  wake p t_start = do
    remove (u32 p.pid_tgid)
    let tgid = u32 (p.pid_tgid / u32_mod)
    let offtime = (p.t_end - t_start) / 1000
    if not (tgid == config.target_tgid)
        then pure 0
        else if ltb p.t_end t_start
        then pure 0
        else if ltb offtime config.min_block_us || ltb config.max_block_us offtime
        then pure 0
        else report p t_start offtime

  -- The thread that comes on the CPU.
  pub resume : Switch → M S ℕ
  unfolding wake
  resume p k = elim (S.get (u32 p.pid_tgid) k.start_times) [
    | none ↦ (k, ok 0)
    | some t_start ↦ wake p t_start k
  ]

  -- "record previous thread sleep time"
  unfoldable pub suspend : Switch → ℕ → ℕ → M S (Unit {0})
  unfolding insert
  suspend p prev_pid prev_tgid =
      if prev_tgid == config.target_tgid then insert prev_pid p.ts else pure tt

  unfoldable pub try_jbm : Switch → M S ℕ
  unfolding suspend resume
  try_jbm p = do
    prev ← try (ok_or p.prev 1)
    prev_pid ← try prev.pid
    prev_tgid ← try prev.tgid
    suspend p prev_pid prev_tgid
    resume p

  abbrev exit_code : Result ℕ ℕ → ℕ
  exit_code (ok ret) = ret
  exit_code (err ret) = u32 ret

  -- The program's entry point.
  unfoldable pub jbm_probe : Switch → Kernel S → Kernel S × ℕ
  jbm_probe p k = let (k', r) = try_jbm p k in (k', exit_code r)
