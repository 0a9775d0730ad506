-- ===== src/Matching/Drain/Settled.antt =====
-- No JVM event stays with a BPF event when the next reported one is nearer to it.
use jbm.Prelude.{ℕ, ◌<◌, ◌≡◌, ◌&&◌, List, [], ◌∷◌, Option, none, some, arith, ltb, i64_max, All}
use jbm.Events.{JvmEvent, BpfEvent, Pair}
use jbm.Matching.Drain.{Sweeping, is_nearer, take_over, round, drain, Flow, next, stop}
use jbm.Matching.Drain.Cases.{round_cases, drain_rule, Continues}
use jbm.Matching.Drain.Window.{InWindow, IsTimely, round-IsTimely}

-- `b` does not lie strictly between the two events of an earlier pair.
abbrev pub Respects : BpfEvent → Pair → Type 0
Respects b (lb, none) = Unit {0}
Respects b (lb, some lj) = ¬ ((lb.timestamp < b.timestamp) × (b.timestamp < lj.timestamp))

-- Newest first: each pair's BPF event respects the pair reported just before it.
abbrev pub IsSettled : List Pair → Type 0
IsSettled [] = Unit {0}
IsSettled (p ∷ []) = Unit {0}
IsSettled (p ∷ (q ∷ ret)) = Respects p.0 q × IsSettled (q ∷ ret)

pub nearer_test :
    (b lb : BpfEvent) (lj : JvmEvent)
    → b.timestamp < i64_max
    → lj.timestamp < i64_max
    → InWindow (lb, some lj)
    → is_nearer b lb lj ≡ (ltb lb.timestamp b.timestamp && ltb b.timestamp lj.timestamp)
nearer_test b lb lj hb hj w = ground arith

pub stays-Respects :
    (b : BpfEvent) (p : Pair) (ret : List Pair)
    → b.timestamp < i64_max
    → InWindow p
    → take_over b (p ∷ ret) ≡ none
    → Respects b p
unfolding take_over
stays-Respects b (lb, none) ret hb w e = tt
stays-Respects b (lb, some lj) ret hb w e =
    λ between. ground (arith, nearer_test b lb lj hb w.1.2 w)

reports-IsSettled :
    (b : BpfEvent) (j : Option JvmEvent) (ret : List Pair)
    → b.timestamp < i64_max
    → All InWindow ret
    → take_over b ret ≡ none
    → IsSettled ret
    → IsSettled ((b, j) ∷ ret)
reports-IsSettled b j [] hb w e h = tt
reports-IsSettled b j (p ∷ ret) hb w e h = (stays-Respects b p ret hb w.0 e, h)

-- The pair that loses its JVM event respects what it respected before.
unmatch-IsSettled :
    (b : BpfEvent) (j : JvmEvent) (ret : List Pair)
    → IsSettled ((b, some j) ∷ ret)
    → IsSettled ((b, none) ∷ ret)
unmatch-IsSettled b j [] h = tt
unmatch-IsSettled b j (p ∷ ret) h = h

take_over-IsSettled :
    (b : BpfEvent) (ret : List Pair) {j : JvmEvent} {ret' : List Pair}
    → take_over b ret ≡ some (j, ret')
    → IsSettled ret
    → IsSettled ((b, some j) ∷ ret')
unfolding take_over
take_over-IsSettled b [] e h = cc
take_over-IsSettled b ((lb, none) ∷ ret) e h = cc
take_over-IsSettled b ((lb, some lj) ∷ ret) e h = ground (arith, unmatch-IsSettled lb lj ret h)

record IsTimelySettled (bs : List BpfEvent) (s : Sweeping) : Type 0 where
  timely : IsTimely bs s
  settled : IsSettled s.ret

round-IsSettled :
    (now : ℕ) (b : BpfEvent) (rest : List BpfEvent) (s : Sweeping)
    → IsTimelySettled (b ∷ rest) s
    → Continues (λ _ t. IsSettled t.ret) (λ _ t. IsSettled t.ret) b rest (round now b s)
round-IsSettled now b rest s h =
    round_cases (Continues (λ _ t. IsSettled t.ret) (λ _ t. IsSettled t.ret) b rest) now b s
      (λ j ret e. take_over-IsSettled b s.ret e h.settled)
      (λ e. (
        λ j _.
            reports-IsSettled b (some j) s.ret h.timely.bpf_in_range.0 h.timely.windows e h.settled,
        λ _ _. reports-IsSettled b none s.ret h.timely.bpf_in_range.0 h.timely.windows e h.settled,
        λ _ _. h.settled,
      ))

join :
    (b : BpfEvent) (rest : List BpfEvent) (f : Flow)
    → Continues IsTimely IsTimely b rest f
    → Continues (λ _ t. IsSettled t.ret) (λ _ t. IsSettled t.ret) b rest f
    → Continues IsTimelySettled IsTimelySettled b rest f
join b rest (next s) t h = record { timely = t; settled = h }
join b rest (stop s) t h = record { timely = t; settled = h }

-- With all times below 2 ^ 63, when the loop ends no reported BPF event lies strictly between the BPF
-- event reported just before it and the JVM event matched to that one.
pub drain-IsSettled :
    (now : ℕ) (bs : List BpfEvent) (s : Sweeping)
    → IsTimely bs s
    → IsSettled s.ret
    → IsSettled (drain now bs s).1.ret
drain-IsSettled now bs s t h =
    (drain_rule IsTimelySettled IsTimelySettled now
      (λ b rest u k.
        join b rest (round now b u) (round-IsTimely now b rest u k.timely)
          (round-IsSettled now b rest u k))
      (λ u k. k) bs s (record { timely = t; settled = h })).settled
