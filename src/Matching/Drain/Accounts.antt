-- ===== src/Matching/Drain/Accounts.antt =====
-- The loop loses no event, reports none twice, and keeps the order of arrival.
use mathlib.Core.List.{reverse-cons, append_assoc, Perm, perm_append_comm}
use mathlib.Core.List.Perm
use jbm.Prelude.{
  ℕ, ◌≡◌, refl, ◌∙◌, subst, List, [], ◌∷◌, ◌++◌, map, reverse, Option, none, some, arith,
}
use jbm.Events.{JvmEvent, BpfEvent, Pair}
use jbm.Matching.Find.{find_matching_jvm_event}
use jbm.Matching.Find.Laws.{find_matching_jvm_event-split, found_list}
use jbm.Matching.Drain.{Sweeping, take_over, round, drain}
use jbm.Matching.Drain.Cases.{round_cases, drain_rule, Continues}

-- The reported BPF events, oldest first, and then those that wait.
abbrev pub bpf_account : List BpfEvent → Sweeping → List BpfEvent
bpf_account bs s = reverse (map (λ p. p.0) s.ret) ++ bs

-- The JVM events that pairs hold, newest first.
abbrev pub matched : List Pair → List JvmEvent
matched [] = []
matched ((b, j) ∷ ret) = found_list j ++ matched ret

-- All the JVM events: trashed, matched, and waiting.
abbrev pub jvm_account : Sweeping → List JvmEvent
jvm_account s = s.trashed ++ (matched s.ret ++ s.jvm_queue)

pub take_over-accounts :
    (b : BpfEvent) (ret : List Pair) {j : JvmEvent} {ret' : List Pair}
    → take_over b ret ≡ some (j, ret')
    → (map (λ p. p.0) ret' ≡ map (λ p. p.0) ret) × (matched ret ≡ j ∷ matched ret')
unfolding take_over
take_over-accounts b [] e = cc
take_over-accounts b ((lb, none) ∷ ret) e = cc
take_over-accounts b ((lb, some lj) ∷ ret) e = ground arith

pub reports_account :
    (b : BpfEvent) (rest done : List BpfEvent)
    → reverse (b ∷ done) ++ rest ≡ reverse done ++ (b ∷ rest)
reports_account b rest done = rw (reverse-cons b done, append_assoc)

module _ (total : List BpfEvent) where
  abbrev BpfTotal : List BpfEvent → Sweeping → Type 0
  BpfTotal bs s = bpf_account bs s ≡ total

  round-BpfTotal :
      (now : ℕ) (b : BpfEvent) (rest : List BpfEvent) (s : Sweeping)
      → BpfTotal (b ∷ rest) s
      → Continues BpfTotal BpfTotal b rest (round now b s)
  round-BpfTotal now b rest s h =
      round_cases (Continues BpfTotal BpfTotal b rest) now b s
        (λ j ret e. rw ((take_over-accounts b s.ret e).0) (next_total))
        (λ _. (λ _ _. next_total, λ _ _. next_total, λ _ _. h))
    where
      next_total : reverse (b ∷ map (λ p. p.0) s.ret) ++ rest ≡ total
      next_total = reports_account b rest (map (λ p. p.0) s.ret) ∙ h

-- The reported BPF events and those left in the queue are, in this order, those reported before and
-- those that were in the queue.
pub drain-bpf_account :
    (now : ℕ) (bs : List BpfEvent) (s : Sweeping)
    → bpf_account (drain now bs s).0 (drain now bs s).1 ≡ bpf_account bs s
drain-bpf_account now bs s =
    drain_rule (BpfTotal total) (BpfTotal total) now (round-BpfTotal total now) (λ _ h. h) bs s refl
  where
    total : List BpfEvent
    total = bpf_account bs s

pub perm_rotate {ℓ} :
    {A : Type ℓ} (old m left : List A) → Perm (old ++ (m ++ left)) (m ++ (old ++ left))
perm_rotate old m left =
    rw (← append_assoc old m left, ← append_assoc m old left)
      (Perm.append_right left (perm_append_comm old m))

-- A search moves its finds in front of the events matched before.
search_shuffle :
    (trashed m old found left : List JvmEvent)
    → Perm ((trashed ++ old) ++ ((found ++ m) ++ left)) (trashed ++ (m ++ (old ++ (found ++ left))))
search_shuffle trashed m old found left =
    rw (append_assoc trashed old ((found ++ m) ++ left), append_assoc found m left)
      (Perm.append_left trashed (
        rw (← append_assoc old found (m ++ left), ← append_assoc old found left)
          (perm_rotate (old ++ found) m left)))

module _ (total : List JvmEvent) where
  abbrev JvmTotal : List BpfEvent → Sweeping → Type 0
  JvmTotal bs s = Perm (jvm_account s) total

  searched_total :
      (b : BpfEvent) (s : Sweeping) {j : Option JvmEvent}
      → (find_matching_jvm_event b.timestamp s.jvm_queue).found ≡ j
      → Perm (jvm_account s) total
      → let f = find_matching_jvm_event b.timestamp s.jvm_queue in
        Perm ((s.trashed ++ f.trashed) ++ ((found_list j ++ matched s.ret) ++ f.jvm_queue)) total
  searched_total b s e h =
      let f = find_matching_jvm_event b.timestamp s.jvm_queue in
      rw (← e) (
        Perm.trans
          (search_shuffle s.trashed (matched s.ret) f.trashed (found_list f.found) f.jvm_queue)
          (rw (find_matching_jvm_event-split b.timestamp s.jvm_queue) h))

  round-JvmTotal :
      (now : ℕ) (b : BpfEvent) (rest : List BpfEvent) (s : Sweeping)
      → JvmTotal (b ∷ rest) s
      → Continues JvmTotal JvmTotal b rest (round now b s)
  round-JvmTotal now b rest s h =
      round_cases (Continues JvmTotal JvmTotal b rest) now b s
        (λ j ret e.
          subst (λ (l : List JvmEvent). Perm (s.trashed ++ (l ++ s.jvm_queue)) total)
            (take_over-accounts b s.ret e).1 h)
        (λ _. (
          λ j e. searched_total b s e h,
          λ e _. searched_total b s e h,
          λ e _. searched_total b s e h,
        ))

-- Each JVM event is, when the loop ends, in just one of three places: trashed, matched in one pair, or
-- still in the queue. None is lost, and none is matched twice.
pub drain-jvm_account :
    (now : ℕ) (bs : List BpfEvent) (s : Sweeping)
    → Perm (jvm_account (drain now bs s).1) (jvm_account s)
drain-jvm_account now bs s =
    drain_rule (JvmTotal (jvm_account s)) (JvmTotal (jvm_account s)) now
      (round-JvmTotal (jvm_account s) now) (λ _ h. h) bs s (Perm.refl (jvm_account s))
