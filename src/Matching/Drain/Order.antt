-- ===== src/Matching/Drain/Order.antt =====
-- The loop matches JVM events in the order of their queue.
use mathlib.Core.List.{Sublist, sublist-append_right, reverse-append, append_assoc}
use mathlib.Core.List.Sublist
use jbm.Prelude.{ℕ, ◌≡◌, refl, ap, ◌∙◌, subst, List, ◌∷◌, ◌++◌, reverse, Option, none, some}
use jbm.Events.{JvmEvent, BpfEvent}
use jbm.Matching.Find.{find_matching_jvm_event}
use jbm.Matching.Find.Laws.{find_matching_jvm_event-split, found_list}
use jbm.Matching.Drain.{Sweeping, round, drain}
use jbm.Matching.Drain.Accounts.{matched, take_over-accounts}
use jbm.Matching.Drain.Cases.{round_cases, drain_rule, Continues}

-- The JVM events of the pairs, oldest pair first, and then those that wait.
abbrev pub in_order : Sweeping → List JvmEvent
in_order s = reverse (matched s.ret) ++ s.jvm_queue

reverse-found_list : (j : Option JvmEvent) → reverse (found_list j) ≡ found_list j
reverse-found_list none = refl
reverse-found_list (some j) = refl

-- A search leaves out what it trashes, and changes no order.
searched_order :
    (t : ℕ) (m queue : List JvmEvent)
    → let f = find_matching_jvm_event t queue in
      Sublist (reverse (found_list f.found ++ m) ++ f.jvm_queue) (reverse m ++ queue)
searched_order t m queue =
    let f = find_matching_jvm_event t queue in
    let kept = found_list f.found ++ f.jvm_queue in
    let same : reverse (found_list f.found ++ m) ++ f.jvm_queue ≡ reverse m ++ kept =
      ap (λ l. l ++ f.jvm_queue) (reverse-append (found_list f.found) m)
      ∙ (ap (λ l. (reverse m ++ l) ++ f.jvm_queue) (reverse-found_list f.found)
          ∙ append_assoc (reverse m) (found_list f.found) f.jvm_queue) in
    let whole = find_matching_jvm_event-split t queue in
    rw same (
      Sublist.append (Sublist.refl (reverse m))
        (subst (λ l. Sublist kept l) whole (sublist-append_right f.trashed kept)))

module _ (total : List JvmEvent) where
  abbrev Ordered : List BpfEvent → Sweeping → Type 0
  Ordered bs s = Sublist (in_order s) total

  searched_Ordered :
      (b : BpfEvent) (s : Sweeping) {j : Option JvmEvent}
      → (find_matching_jvm_event b.timestamp s.jvm_queue).found ≡ j
      → Sublist (in_order s) total
      → let f = find_matching_jvm_event b.timestamp s.jvm_queue in
        Sublist (reverse (found_list j ++ matched s.ret) ++ f.jvm_queue) total
  searched_Ordered b s e h =
      rw (← e) (Sublist.trans (searched_order b.timestamp (matched s.ret) s.jvm_queue) h)

  round-Ordered :
      (now : ℕ) (b : BpfEvent) (rest : List BpfEvent) (s : Sweeping)
      → Ordered (b ∷ rest) s
      → Continues Ordered Ordered b rest (round now b s)
  round-Ordered now b rest s h =
      round_cases (Continues Ordered Ordered b rest) now b s
        (λ j ret e.
          subst (λ (l : List JvmEvent). Sublist (reverse l ++ s.jvm_queue) total)
            (take_over-accounts b s.ret e).1 h)
        (λ _. (
          λ j e. searched_Ordered b s e h,
          λ e _. searched_Ordered b s e h,
          λ e _. searched_Ordered b s e h,
        ))

-- JVM events never overtake one another: those that the pairs hold, from the oldest pair to the newest,
-- and then those that are left in the queue, are a sublist of those that the pairs held and the queue had
-- before, takeovers included.
drain-in_order :
    (now : ℕ) (bs : List BpfEvent) (s : Sweeping)
    → Sublist (in_order (drain now bs s).1) (in_order s)
drain-in_order now bs s =
    drain_rule (Ordered (in_order s)) (Ordered (in_order s)) now (round-Ordered (in_order s) now)
      (λ _ h. h) bs s (Sublist.refl (in_order s))
