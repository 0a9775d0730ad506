-- ===== src/Matching/Drain/Waiting.antt =====
-- When the loop leaves a BPF event in its queue.
use jbm.Prelude.{ℕ, ◌<◌, ◌≡◌, false, List, [], ◌∷◌, arith, sub64}
use jbm.Events.{BpfEvent}
use jbm.Matching.Find.{Search, find_matching_jvm_event}
use jbm.Matching.Drain.{Sweeping, gives_up, giveup_time, drain}
use jbm.Matching.Drain.Cases.{round_cases, drain_rule, Continues}

-- No JVM event is at hand, and the give-up time has not passed for the event at the front.
abbrev pub Waits : ℕ → List BpfEvent → Sweeping → Type 0
Waits now [] s = Unit {0}
Waits now (b ∷ bs) s = (s.jvm_queue ≡ []) × (sub64 now b.timestamp < giveup_time)

gives_up-false :
    (now : ℕ) (b : BpfEvent) (f : Search)
    → gives_up now b f ≡ false
    → (f.jvm_queue ≡ []) × (sub64 now b.timestamp < giveup_time)
gives_up-false now b f e = ground arith

-- The loop stops only with an empty BPF queue, or with an empty JVM queue and less than 30000 ms since
-- the BPF event at the front.
pub drain-Waits :
    (now : ℕ) (bs : List BpfEvent) (s : Sweeping) → Waits now (drain now bs s).0 (drain now bs s).1
drain-Waits now bs s =
    drain_rule (λ _ _. Unit {0}) (Waits now) now
      (λ b rest u _.
        round_cases (Continues (λ _ _. Unit {0}) (Waits now) b rest) now b u (λ _ _ _. tt)
          (λ _. (
            λ _ _. tt,
            λ _ _. tt,
            λ _ e. gives_up-false now b (find_matching_jvm_event b.timestamp u.jvm_queue) e,
          )))
      (λ _ _. tt) bs s tt
