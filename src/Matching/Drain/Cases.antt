-- ===== src/Matching/Drain/Cases.antt =====
-- One round of the loop by its four outcomes.
use jbm.Prelude.{
  ℕ, ◌≡◌, true, false, inl, inr, List, ◌∷◌, ◌++◌, Option, none, some, Bool-cases, Option-cases, [],
  refl, ◌⊎◌, subst,
}
use jbm.Events.{JvmEvent, BpfEvent, Pair}
use jbm.Matching.Find.{Search, find_matching_jvm_event}
use jbm.Matching.Drain.{Sweeping, Flow, next, stop, take_over, gives_up, round, after_search, drain}

-- The state when the search has run.
abbrev pub searched : Sweeping → Search → Sweeping
searched s f = record s { jvm_queue = f.jvm_queue; trashed = s.trashed ++ f.trashed }

abbrev pub report : BpfEvent → Option JvmEvent → Sweeping → Flow
report b j s = next (record s { ret = (b, j) ∷ s.ret })

module _ {ℓ} (P : Flow → Type ℓ) (now : ℕ) (b : BpfEvent) (s : Sweeping) where
  after_search_cases :
      (f : Search)
      → ((j : JvmEvent) → f.found ≡ some j → P (report b (some j) (searched s f)))
      → (f.found ≡ none → gives_up now b f ≡ true → P (report b none (searched s f)))
      → (f.found ≡ none → gives_up now b f ≡ false → P (stop (searched s f)))
      → P (after_search now b s f)
  unfolding after_search
  after_search_cases f finds gives waits = elim (Option-cases f.found) [
    | inr (j, e) ↦ rw (e, after_search) (finds j e)
    | inl e ↦ elim (Bool-cases (gives_up now b f)) [
      | inl g ↦ rw (e, g, after_search) (gives e g)
      | inr g ↦ rw (e, g, after_search) (waits e g)
    ]
  ]

  pub round_cases :
      ((j : JvmEvent) (ret : List Pair)
        → take_over b s.ret ≡ some (j, ret)
        → P (next (record s { ret = (b, some j) ∷ ret })))
      → (let f = find_matching_jvm_event b.timestamp s.jvm_queue in
          take_over b s.ret ≡ none
          → ((j : JvmEvent) → f.found ≡ some j → P (report b (some j) (searched s f)))
            × (f.found ≡ none → gives_up now b f ≡ true → P (report b none (searched s f)))
            × (f.found ≡ none → gives_up now b f ≡ false → P (stop (searched s f))))
      → P (round now b s)
  unfolding round
  round_cases takes searches = elim (Option-cases (take_over b s.ret)) [
    | inr ((j, ret), e) ↦ rw (e, round) (takes j ret e)
    | inl e ↦
        let (finds, gives, waits) = searches e in
        rw (e, round)
          (after_search_cases (find_matching_jvm_event b.timestamp s.jvm_queue) finds gives waits)
  ]

Flow-cases : (f : Flow) → ((s : Sweeping) × (f ≡ next s)) ⊎ ((s : Sweeping) × (f ≡ stop s))
Flow-cases (next s) = inl (s, refl)
Flow-cases (stop s) = inr (s, refl)

-- A rule for the loop: `P` holds of the queue and the state before each round, and `Q` at the end.
module _ {ℓ} (P Q : List BpfEvent → Sweeping → Type ℓ) where
  abbrev pub Continues : BpfEvent → List BpfEvent → Flow → Type ℓ
  Continues b rest (next s) = P rest s
  Continues b rest (stop s) = Q (b ∷ rest) s

  pub drain_rule :
      (now : ℕ)
      → ((b : BpfEvent) (rest : List BpfEvent) (s : Sweeping)
          → P (b ∷ rest) s
          → Continues b rest (round now b s))
      → ((s : Sweeping) → P [] s → Q [] s)
      → (bs : List BpfEvent) (s : Sweeping) → P bs s
      → Q (drain now bs s).0 (drain now bs s).1
  unfolding drain
  drain_rule now step done [] s p = done s p
  drain_rule now step done (b ∷ bs) s p = elim (Flow-cases (round now b s)) [
    | inl (s', e) ↦
        rw (e, drain) (drain_rule now step done bs s' (subst (Continues b bs) e (step b bs s p)))
    | inr (s', e) ↦ rw (e, drain) (subst (Continues b bs) e (step b bs s p))
  ]
