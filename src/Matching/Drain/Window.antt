-- ===== src/Matching/Drain/Window.antt =====
-- Every match that the loop reports lies in the window of its BPF event.
use jbm.Prelude.{ℕ, ◌+◌, ◌<◌, ◌≤◌, ◌≡◌, List, [], ◌∷◌, Option, none, some, arith, i64_max, All}
use jbm.Events.{JvmEvent, BpfEvent, Pair}
use jbm.Matching.Find.{find_matching_jvm_event, match_threshold}
use jbm.Matching.Find.Laws.{
  InRange, find_matching_jvm_event-window, find_matching_jvm_event-InRange,
}
use jbm.Matching.Drain.{Sweeping, take_over, round, drain}
use jbm.Matching.Drain.Cases.{round_cases, drain_rule, Continues}

-- The JVM event of a pair, if there is one, is not older than its BPF event and less than a second
-- younger.
abbrev pub Matches : BpfEvent → Option JvmEvent → Type 0
Matches b none = Unit {0}
Matches b (some j) =
    (b.timestamp ≤ j.timestamp)
    × (j.timestamp < b.timestamp + match_threshold)
    × (j.timestamp < i64_max)

abbrev pub InWindow : Pair → Type 0
InWindow (b, j) = (b.timestamp < i64_max) × Matches b j

abbrev pub BpfInRange : List BpfEvent → Type 0
BpfInRange = All (λ b. b.timestamp < i64_max)

-- Times are below 2 ^ 63, and matches lie in their windows.
pub record IsTimely (bs : List BpfEvent) (s : Sweeping) : Type 0 where
  pub bpf_in_range : BpfInRange bs
  pub jvm_in_range : InRange s.jvm_queue
  pub windows : All InWindow s.ret

take_over-windows :
    (b : BpfEvent) (ret : List Pair) {j : JvmEvent} {ret' : List Pair}
    → b.timestamp < i64_max
    → All InWindow ret
    → take_over b ret ≡ some (j, ret')
    → All InWindow ((b, some j) ∷ ret')
unfolding take_over
take_over-windows b [] hb h e = cc
take_over-windows b ((lb, none) ∷ ret) hb h e = cc
take_over-windows b ((lb, some lj) ∷ ret) hb h e = ground arith

pub round-IsTimely :
    (now : ℕ) (b : BpfEvent) (rest : List BpfEvent) (s : Sweeping)
    → IsTimely (b ∷ rest) s
    → Continues IsTimely IsTimely b rest (round now b s)
round-IsTimely now b rest s h =
    round_cases (Continues IsTimely IsTimely b rest) now b s
      (λ j ret e. record {
        bpf_in_range = h.bpf_in_range.1;
        jvm_in_range = h.jvm_in_range;
        windows = take_over-windows b s.ret h.bpf_in_range.0 h.windows e;
      })
      (λ _. (
        λ j e. record {
          bpf_in_range = h.bpf_in_range.1;
          jvm_in_range = left;
          windows = (
            (
              h.bpf_in_range.0,
              find_matching_jvm_event-window b.timestamp s.jvm_queue h.bpf_in_range.0 h.jvm_in_range
                  e,
            ),
            h.windows,
          );
        },
        λ _ _. record {
          bpf_in_range = h.bpf_in_range.1;
          jvm_in_range = left;
          windows = ((h.bpf_in_range.0, tt), h.windows);
        },
        λ _ _. record { bpf_in_range = h.bpf_in_range; jvm_in_range = left; windows = h.windows },
      ))
  where
    left : InRange (find_matching_jvm_event b.timestamp s.jvm_queue).jvm_queue
    left = find_matching_jvm_event-InRange b.timestamp s.jvm_queue h.jvm_in_range

-- With all times below 2 ^ 63 the loop keeps every reported match in its window: the JVM event is not
-- older than the BPF event, and less than 1000 ms younger.
pub drain-IsTimely :
    (now : ℕ) (bs : List BpfEvent) (s : Sweeping)
    → IsTimely bs s
    → IsTimely (drain now bs s).0 (drain now bs s).1
drain-IsTimely now = drain_rule IsTimely IsTimely now (round-IsTimely now) (λ s h. h)
