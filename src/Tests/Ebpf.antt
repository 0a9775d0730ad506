-- ===== src/Tests/Ebpf.antt =====
-- Calls of the eBPF program (jbm-ebpf/src/main.rs), on a map that holds two start times.
use jbm.Prelude.{
  ℕ, ◌+◌, ◌*◌, ◌^◌, ◌<◌, ◌≡◌, refl, List, [], ◌∷◌, ◌++◌, Option, none, some, Result, ok, err, arith,
  ltb, length, ◌==◌, if◌then◌else◌, Bool, ◌||◌, codes, u32_mod,
}
use jbm.Common.{Config, BlockEvent}
use jbm.HashMap
use jbm.HashMap.{HashMap}
use jbm.Ebpf.StartTimes.{StartTimes}
use jbm.Ebpf.Probe.{Switch, output, send_signal, Kernel, suspend, try_jbm}
use jbm.Ebpf.Probe.History.{run, run-Reports}
use jbm.Ebpf.Probe.History.Blocked.{Reports}
use jbm.Ebpf.Probe.Sizes.{IsSized}
use jbm.Ebpf.Probe.Intervals.{AllNoted, off_since, all_reports, run-off_since, run-all_reports}

abbrev is_some : Option ℕ → Bool
is_some none = Bool.false
is_some (some v) = Bool.true

-- E2BIG
abbrev too_big : ℕ
too_big = 7

unfoldable pub put : ℕ → ℕ → HashMap ℕ → Result (HashMap ℕ) ℕ
put k v m =
    if is_some (HashMap.get k m) || ltb (length m) 2 then ok (HashMap.insert k v m) else err too_big

pub get-put :
    (j k v : ℕ) (m : HashMap ℕ) {m' : HashMap ℕ}
    → put k v m ≡ ok m'
    → HashMap.get j m' ≡ (if k == j then some v else HashMap.get j m)
unfolding put
get-put j k v m e = ground (arith, HashMap.get-insert j k v m)

-- ENOENT
unfoldable pub take_out : ℕ → HashMap ℕ → Result (HashMap ℕ) ℕ
take_out k m = if is_some (HashMap.get k m) then ok (HashMap.remove k m) else err 2

pub get-take_out :
    (j k : ℕ) (m : HashMap ℕ) {m' : HashMap ℕ}
    → take_out k m ≡ ok m'
    → HashMap.get j m' ≡ (if k == j then none else HashMap.get j m)
unfolding take_out
get-take_out j k m e = ground (arith, HashMap.get-remove j k m)

pub take_out_present :
    (k : ℕ) (m : HashMap ℕ) {v : ℕ}
    → HashMap.get k m ≡ some v
    → (m' : HashMap ℕ) × (take_out k m ≡ ok m')
unfolding take_out
take_out_present k m e = (HashMap.remove k m, ground arith)

abbrev pub small_map : StartTimes
small_map = record {
  Map = HashMap ℕ;
  get = HashMap.get;
  insert = put;
  remove = take_out;
  get-insert = get-put;
  get-remove = get-take_out;
  remove_present = take_out_present;
}

abbrev pub config : Config
config = record {
  target_tgid = 100;
  min_block_us = 1000;
  max_block_us = 60000000;
  stack_storage_size = 10240;
}

-- Thread `prev` of the target goes off the CPU at `ts`, and thread `next` comes on it.
abbrev pub switch : ℕ → ℕ → ℕ → Switch
switch prev next ts = record {
  prev = some (record { pid = ok prev; tgid = ok 100 });
  ts = ts;
  pid_tgid = 100 * u32_mod + next;
  t_end = ts + 1;
  kernel_stack = ok 5;
  user_stack = ok 6;
  comm = ok (codes "LOCKER" ++ (0 ∷ 0 ∷ 0 ∷ 0 ∷ 0 ∷ 0 ∷ 0 ∷ 0 ∷ 0 ∷ 0 ∷ []));
}

pub switch-IsSized : (prev next ts : ℕ) → ts < 2 ^ 62 → IsSized (switch prev next ts)
switch-IsSized prev next ts h = record {
  ts = omega arith;
  t_end = omega arith;
  kernel_stack = λ id e. ground (arith, e);
  user_stack = λ id e. ground (arith, e);
  comm = λ name e. ground (arith, e);
}

abbrev pub boot : Kernel small_map
boot = record { start_times = []; effects = [] }

-- Thread 7 goes off at 1 s and comes back two seconds later.
abbrev pub history : List Switch
history = switch 8 7 3000000000 ∷ (switch 7 8 1000000000 ∷ [])

abbrev pub blocked_event : BlockEvent
blocked_event = record {
  pid = 7;
  tgid = 100;
  user_stack_id = 6;
  kernel_stack_id = 5;
  name = codes "LOCKER" ++ (0 ∷ 0 ∷ 0 ∷ 0 ∷ 0 ∷ 0 ∷ 0 ∷ 0 ∷ 0 ∷ 0 ∷ []);
  offtime = 2000000;
  t_start = 1000000000;
  t_end = 3000000001;
}

pub history_effects :
    (run small_map config boot history).effects ≡ output blocked_event ∷ (send_signal 7 27 ∷ [])
unfolding run try_jbm put take_out HashMap.get HashMap.insert HashMap.remove
history_effects = refl

pub history-AllNoted : AllNoted small_map config boot history
unfolding run try_jbm suspend put take_out HashMap.get HashMap.insert HashMap.remove
history-AllNoted = (
  record {
    task = record { pid = ok 8; tgid = ok 100 };
    pid = 8;
    tgid = 100;
    is_prev = refl;
    reads_pid = refl;
    reads_tgid = refl;
    writes = refl;
  },
  (
    record {
      task = record { pid = ok 7; tgid = ok 100 };
      pid = 7;
      tgid = 100;
      is_prev = refl;
      reads_pid = refl;
      reads_tgid = refl;
      writes = refl;
    },
    tt,
  ),
)

pub boot_empty : (i : ℕ) → HashMap.get {V = ℕ} i [] ≡ none
unfolding HashMap.get
boot_empty i = refl

run-off_since_example :
    HashMap.get 8 (run small_map config boot history).start_times ≡ off_since config history 8
run-off_since_example = run-off_since small_map config boot history 8 boot_empty history-AllNoted

run-Reports_example : Reports config (history ++ []) (run small_map config boot history).effects
run-Reports_example =
    run-Reports small_map config boot [] history (λ j t e. absurd (ground (arith, e, boot_empty j)))
      tt

run-all_reports_example : (run small_map config boot history).effects ≡ all_reports config history
run-all_reports_example =
    run-all_reports small_map config boot history boot_empty refl history-AllNoted
