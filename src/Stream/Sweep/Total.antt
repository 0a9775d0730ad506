-- ===== src/Stream/Sweep/Total.antt =====
-- The sweep does not panic, and a rule for what it keeps.
use jbm.Prelude.{
  ℕ, ◌≡◌, ◌≢◌, refl, sym, inl, inr, List, [], ◌∷◌, none, some, All, Option-cases, All-mono₂, ◌∙◌,
}
use jbm.HashMap.{get, keys, get-store_ne}
use jbm.HashMap.Entries.{Distinct, All-present}
use jbm.Events.{BpfEvent}
use jbm.Matching.Drain.{drain, Sweeping}
use jbm.Stream.{EventStream}
use jbm.Stream.Sweep.{Swept, start, settle, sweep_tid, sweep_tids, sweep_all, unswept}

abbrev Present : Swept → ℕ → Type 0
Present w t = get t w.stream.bpf_events ≢ none

settle-Present :
    (t : ℕ) (ts : List ℕ) (w : Swept) (d : List BpfEvent × Sweeping)
    → All (λ j. j ≢ t) ts
    → All (Present w) ts
    → All (Present (settle t w d)) ts
settle-Present t ts w (bq, s) others h =
    All-mono₂ ts
      (λ j apart there. rw (get-store_ne j t bq w.stream.bpf_events (λ e. apart (sym e))) there)
      others h

pub sweep_tids-step :
    (now t : ℕ) (ts : List ℕ) (w : Swept) {bq : List BpfEvent}
    → get t w.stream.bpf_events ≡ some bq
    → sweep_tids now (t ∷ ts) w ≡ sweep_tids now ts (settle t w (drain now bq (start t w)))
unfolding sweep_tids sweep_tid
sweep_tids-step now t ts w e = rw (e, sweep_tid, sweep_tids)

-- A rule for the loop: `P` of the thread ids that are left, and of the state.
module _ {ℓ} (P : List ℕ → Swept → Type ℓ) (now : ℕ) where
  pub sweep_tids_rule :
      ((t : ℕ) (ts : List ℕ) (w : Swept) (bq : List BpfEvent)
        → get t w.stream.bpf_events ≡ some bq
        → P (t ∷ ts) w
        → P ts (settle t w (drain now bq (start t w))))
      → (ts : List ℕ) (w : Swept) → Distinct ts
      → All (Present w) ts
      → P ts w
      → (w' : Swept) × (sweep_tids now ts w ≡ some w') × P [] w'
  unfolding sweep_tids
  sweep_tids_rule keep [] w d h p = (w, refl, p)
  sweep_tids_rule keep (t ∷ ts) w d h p = elim (Option-cases (get t w.stream.bpf_events)) [
    | inl e ↦ absurd (h.0 e)
    | inr (bq, e) ↦
        let (w', done, q) =
          sweep_tids_rule keep ts (settle t w (drain now bq (start t w))) d.1
            (settle-Present t ts w (drain now bq (start t w)) d.0 h.1) (keep t ts w bq e p) in
        (w', sweep_tids-step now t ts w e ∙ done, q)
  ]

  -- The same for the whole sweep, on a map with distinct keys.
  pub sweep_all_rule :
      ((t : ℕ) (ts : List ℕ) (w : Swept) (bq : List BpfEvent)
        → get t w.stream.bpf_events ≡ some bq
        → P (t ∷ ts) w
        → P ts (settle t w (drain now bq (start t w))))
      → (s : EventStream) → Distinct (keys s.bpf_events)
      → P (keys s.bpf_events) (unswept s)
      → (w' : Swept) × (sweep_all now s ≡ some w') × P [] w'
  unfolding sweep_all
  sweep_all_rule keep s d p =
      sweep_tids_rule keep (keys s.bpf_events) (unswept s) d (All-present s.bpf_events) p
