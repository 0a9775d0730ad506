-- ===== src/Matching/Drain/Queues.antt =====
-- The queues only shrink: what holds of each event in them still holds.
use jbm.Prelude.{ℕ, List, ◌∷◌, All}
use jbm.Events.{JvmEvent, BpfEvent}
use jbm.Matching.Find.Laws.{find_matching_jvm_event-All}
use jbm.Matching.Drain.{Sweeping, round, drain}
use jbm.Matching.Drain.Cases.{round_cases, drain_rule, Continues}

module _ {ℓ} (P : BpfEvent → Type ℓ) (Q : JvmEvent → Type ℓ) where
  abbrev pub QueuesKeep : List BpfEvent → Sweeping → Type ℓ
  QueuesKeep bs s = All P bs × All Q s.jvm_queue

  round-QueuesKeep :
      (now : ℕ) (b : BpfEvent) (rest : List BpfEvent) (s : Sweeping)
      → QueuesKeep (b ∷ rest) s
      → Continues QueuesKeep QueuesKeep b rest (round now b s)
  round-QueuesKeep now b rest s h =
      let left = find_matching_jvm_event-All Q b.timestamp s.jvm_queue h.1 in
      round_cases (Continues QueuesKeep QueuesKeep b rest) now b s (λ _ _ _. (h.0.1, h.1))
        (λ _. (λ _ _. (h.0.1, left), λ _ _. (h.0.1, left), λ _ _. (h.0, left)))

  pub drain-QueuesKeep :
      (now : ℕ) (bs : List BpfEvent) (s : Sweeping)
      → QueuesKeep bs s
      → QueuesKeep (drain now bs s).0 (drain now bs s).1
  drain-QueuesKeep now = drain_rule QueuesKeep QueuesKeep now (round-QueuesKeep now) (λ s h. h)
