-- ===== src/Loader.antt =====
-- `Jbm::new` and `load_bpf` (jbm/src/lib.rs): the loading of the eBPF program through the crate aya, whose
-- answers are the record `Aya`.
pub mod Laws
use jbm.Prelude.{
  ℕ, Bool, true, false, List, [], ◌∷◌, ◌++◌, Option, none, some, Result, ok, err, Text, codes,
  if◌then◌else◌,
}
use jbm.Common.{Config}
use jbm.Stream.{EventStream, new_with}

-- An error of `BpfLoader::load`.
pub data BpfError : Type 0 where
  map_error : Text → BpfError
  other_error : Text → BpfError

-- How a step goes on: with a value, by an error that `?` returns, or by a failed `expect`.
pub data Step (A : Type 0) : Type 0 where
  done : A → Step A
  fails : Text → Step A
  panics : Step A

-- What `load_bpf` sets before it loads.
pub record Load : Type 0 where
  -- `set_max_entries("STACK_TRACES", …)`
  pub stack_traces : ℕ
  -- `set_global("CONFIG", …)`
  pub global : Config

-- What is done to the system, in order.
pub data Call : Type 0 where
  load : Load → Call
  set_memlock : Call
  load_program : Call
  attach : Text → ℕ → Call
  take_map : Text → Call
  open_buffer : ℕ → Call

pub record Aya : Type 1 where
  pub Bpf : Type 0
  pub Buffer : Type 0
  -- The answer to a load, after so many calls.
  pub load : List Call → Load → Result Bpf BpfError
  pub setrlimit : Bool
  -- `program_mut("jbm").expect(…).try_into()`
  pub program : Bpf → Step (Unit {0})
  pub load_program : Bpf → Result (Unit {0}) Text
  pub attach : Bpf → Result (Unit {0}) Text
  -- `AsyncPerfEventArray::try_from(take_map("EVENTS").expect(…))`
  pub events_map : Bpf → Step (Unit {0})
  pub online_cpus : Result (List ℕ) Text
  pub open_buffer : ℕ → Result Buffer Text
  -- `aya::util::kernel_symbols`
  pub kernel_symbols : Result (Unit {0}) Text

abbrev pub M : Type 0 → Type 0
M A = List Call → List Call × Step A

abbrev pub continue : {A B : Type 0} → (A → M B) → List Call × Step A → List Call × Step B
continue f (log, done a) = f a log
continue f (log, fails e) = (log, fails e)
continue f (log, panics) = (log, panics)

infixl 5 ◌>>=◌ ◌>>◌
abbrev pub ◌>>=◌ : {A B : Type 0} → M A → (A → M B) → M B
◌>>=◌ m f log = continue f (m log)

abbrev pub ◌>>◌ : {B : Type 0} → M (Unit {0}) → M B → M B
m >> n = m >>= λ _. n

abbrev pub pure : {A : Type 0} → A → M A
pure a log = (log, done a)

abbrev pub lift : {A : Type 0} → Step A → M A
lift step log = (log, step)

abbrev pub step_of : {A : Type 0} → Result A Text → Step A
step_of (ok a) = done a
step_of (err e) = fails e

-- A failed `expect`.
abbrev pub expected : {A : Type 0} → Option A → Step A
expected none = panics
expected (some a) = done a

-- A call with a result, which `?` takes apart.
abbrev pub perform : {A : Type 0} → Call → Result A Text → M A
perform call r log = (log ++ (call ∷ []), step_of r)

-- What `Jbm` holds besides its provider.
pub record Jbm (aya : Aya) : Type 0 where
  pub bpf : aya.Bpf
  pub perf_buffers : List aya.Buffer
  pub stream : EventStream

module _ (aya : Aya) (config : Config) where
  abbrev pub settings : Load
  settings = record { stack_traces = config.stack_storage_size; global = config }

  unfoldable pub load_bpf : List Call → List Call × Result aya.Bpf BpfError
  load_bpf log = (log ++ (load settings ∷ []), aya.load log settings)

  abbrev pub text_of : BpfError → Text
  text_of (map_error e) = e
  text_of (other_error e) = e

  abbrev step_of_load : List Call × Result aya.Bpf BpfError → List Call × Step aya.Bpf
  step_of_load (log, ok bpf) = (log, done bpf)
  step_of_load (log, err e) = (log, fails (text_of e))

  -- After a failed load: a map error raises the limit, and then the load is tried again.
  retry : BpfError → M aya.Bpf
  unfolding load_bpf
  retry (map_error e) log =
      let log' = log ++ (set_memlock ∷ []) in
      if aya.setrlimit then step_of_load (load_bpf log') else (log', fails e)
  retry (other_error e) log = (log, fails e)

  abbrev or_retry : List Call × Result aya.Bpf BpfError → List Call × Step aya.Bpf
  or_retry (log, ok bpf) = (log, done bpf)
  or_retry (log, err e) = retry e log

  unfoldable pub load_with_retry : M aya.Bpf
  unfolding load_bpf retry
  load_with_retry log = or_retry (load_bpf log)

  unfoldable pub open_all : List ℕ → M (List aya.Buffer)
  open_all [] = pure []
  open_all (cpu ∷ cpus) = do
    perf_buf ← perform (open_buffer cpu) (aya.open_buffer cpu)
    perf_buffers ← open_all cpus
    pure (perf_buf ∷ perf_buffers)

  -- From `program_mut` to `attach`.
  unfoldable pub attach_program : aya.Bpf → M (Unit {0})
  attach_program bpf = do
    lift (aya.program bpf)
    perform load_program (aya.load_program bpf)
    perform (attach (codes "finish_task_switch") 0) (aya.attach bpf)

  -- From `take_map` to the loop over the CPUs.
  unfoldable pub open_buffers : aya.Bpf → M (List aya.Buffer)
  open_buffers bpf = do
    perform (take_map (codes "EVENTS")) (ok tt)
    lift (aya.events_map bpf)
    cpus ← lift (step_of aya.online_cpus)
    open_all cpus

  -- `Jbm::new`. The provider, which it also takes, is `Monitor`'s.
  unfoldable pub new_jbm : M (Jbm aya)
  new_jbm = do
    bpf ← load_with_retry
    attach_program bpf
    perf_buffers ← open_buffers bpf
    stream ← lift (expected (new_with aya.kernel_symbols))
    pure (record { bpf = bpf; perf_buffers = perf_buffers; stream = stream })
