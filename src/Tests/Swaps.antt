-- ===== src/Tests/Swaps.antt =====
-- Two CPUs switch at one time (jbm-ebpf/src/main.rs): thread 7 comes back on the one, and thread 9 goes off
-- the other.
use mathlib.Core.List.{Perm}
use jbm.Prelude.{ℕ, ◌≡◌, refl, List, [], ◌∷◌, ◌++◌, some, ok, arith}
use jbm.HashMap
use jbm.Ebpf.Probe.{Switch, Kernel, suspend, try_jbm}
use jbm.Ebpf.Probe.History.{run}
use jbm.Ebpf.Probe.Intervals.{AllNoted, IsNoted}
use jbm.Ebpf.Probe.Swaps.{AreApart, run-swap}
use jbm.Tests.Ebpf.{small_map, put, take_out, config, boot, boot_empty, switch}

-- In the place of a task of another process.
abbrev here : Switch
here = record (switch 8 7 3000000000) { prev = some (record { pid = ok 8; tgid = ok 50 }) }

abbrev there : Switch
there = switch 9 10 3000000500

abbrev before : List Switch
before = switch 7 20 1000000000 ∷ []

abbrev after : List Switch
after = switch 10 9 4000000000 ∷ []

here-there : AreApart here there
here-there = record {
  prev_p = (8, 50);
  prev_q = (9, 100);
  ids_p = refl;
  ids_q = refl;
  off_off = λ e. omega arith;
  off_on = λ e. omega arith;
  on_off = λ e. omega arith;
  on_on = λ e. omega arith;
}

-- The task's ids can be read, and are as given.
IsNoted-read :
    (p : Switch) (k : Kernel small_map) (pid tgid : ℕ)
    → p.prev ≡ some (record { pid = ok pid; tgid = ok tgid })
    → (suspend small_map config p pid tgid k).1 ≡ ok tt
    → IsNoted small_map config p k
IsNoted-read p k pid tgid e f = record {
  task = record { pid = ok pid; tgid = ok tgid };
  pid = pid;
  tgid = tgid;
  is_prev = e;
  reads_pid = refl;
  reads_tgid = refl;
  writes = f;
}

here_first : AllNoted small_map config boot (after ++ (there ∷ here ∷ before))
unfolding run try_jbm suspend put take_out HashMap.get HashMap.insert HashMap.remove
here_first = (
  IsNoted-read _ _ 10 100 refl refl,
  (
    IsNoted-read _ _ 9 100 refl refl,
    (IsNoted-read _ _ 8 50 refl refl, (IsNoted-read _ _ 7 100 refl refl, tt)),
  ),
)

there_first : AllNoted small_map config boot (after ++ (here ∷ there ∷ before))
unfolding run try_jbm suspend put take_out HashMap.get HashMap.insert HashMap.remove
there_first = (
  IsNoted-read _ _ 10 100 refl refl,
  (
    IsNoted-read _ _ 8 50 refl refl,
    (IsNoted-read _ _ 9 100 refl refl, (IsNoted-read _ _ 7 100 refl refl, tt)),
  ),
)

run-swap_example :
    let one = run small_map config boot (after ++ (here ∷ there ∷ before)) in
    let other = run small_map config boot (after ++ (there ∷ here ∷ before)) in
    (HashMap.get 9 one.start_times ≡ HashMap.get 9 other.start_times)
    × Perm one.effects other.effects
run-swap_example =
    run-swap small_map config boot after here there before 9 boot_empty refl here-there there_first
      here_first
