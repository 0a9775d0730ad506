-- ===== src/Stream/Sweep/Idle.antt =====
-- What a sweep leaves behind.
use jbm.Prelude.{
  ℕ, ◌≡◌, refl, sym, ◌⊎◌, inl, inr, List, [], ◌∷◌, some, arith, Bool-cases, Option-cases, ◌==◌,
  ==_iff, ◌∙◌, false, true,
}
use jbm.HashMap.{get, queue, keys, queue-store}
use jbm.HashMap.Entries.{Among, Among-of_get}
use jbm.Events.{BpfEvent}
use jbm.Matching.Drain.{Sweeping, drain}
use jbm.Matching.Drain.Waiting.{Waits, drain-Waits}
use jbm.Stream.{EventStream, IsValid}
use jbm.Stream.Sweep.{Swept, start, settle, sweep_all, unswept}
use jbm.Stream.Sweep.Total.{sweep_all_rule}

-- The thread has no BPF event waiting, or it has no JVM event waiting and its first BPF event is not
-- yet 30000 ms old.
abbrev pub IsIdle : ℕ → ℕ → Swept → Type 0
IsIdle now k w = Waits now (queue k w.stream.bpf_events) (start k w)

Waits-queue :
    (now : ℕ) (bs : List BpfEvent) (s s' : Sweeping)
    → s.jvm_queue ≡ s'.jvm_queue
    → Waits now bs s
    → Waits now bs s'
Waits-queue now [] s s' e h = tt
Waits-queue now (b ∷ bs) s s' e h = (sym e ∙ h.0, h.1)

-- What was reported before does not matter.
pub IsIdle-unswept : (now k : ℕ) (w : Swept) → IsIdle now k w → IsIdle now k (unswept w.stream)
IsIdle-unswept now k w h =
    Waits-queue now (queue k w.stream.bpf_events) (start k w) (start k (unswept w.stream)) refl h

abbrev ToDo : ℕ → ℕ → List ℕ → Swept → Type 0
ToDo now k ts w = Among k ts ⊎ IsIdle now k w

settle-IsIdle :
    (now k t : ℕ) (w : Swept) (bq : List BpfEvent)
    → (t == k) ≡ true
    → IsIdle now k (settle t w (drain now bq (start t w)))
settle-IsIdle now k t w bq hit =
    let d = drain now bq (start t w) in
    rw (queue-store k t d.0 w.stream.bpf_events, hit)
      (Waits-queue now d.0 d.1 (start k (settle t w d))
        (sym (rw hit at (queue-store k t d.1.jvm_queue w.stream.jvm_events)))
        (drain-Waits now bq (start t w)))

settle-IsIdle_ne :
    (now k t : ℕ) (w : Swept) (d : List BpfEvent × Sweeping)
    → (t == k) ≡ false
    → IsIdle now k w
    → IsIdle now k (settle t w d)
settle-IsIdle_ne now k t w d miss h =
    rw (queue-store k t d.0 w.stream.bpf_events, miss)
      (Waits-queue now (queue k w.stream.bpf_events) (start k w) (start k (settle t w d))
        (sym (rw miss at (queue-store k t d.1.jvm_queue w.stream.jvm_events))) h)

settle-ToDo :
    (now k t : ℕ) (ts : List ℕ) (w : Swept) (bq : List BpfEvent)
    → ToDo now k (t ∷ ts) w
    → ToDo now k ts (settle t w (drain now bq (start t w)))
settle-ToDo now k t ts w bq h = elim (Bool-cases (t == k)) [
  | inl hit ↦ inr (settle-IsIdle now k t w bq hit)
  | inr miss ↦ elim h [
    | inl (inl same) ↦ absurd (ground (arith, ==_iff t k))
    | inl (inr later) ↦ inl later
    | inr idle ↦ inr (settle-IsIdle_ne now k t w (drain now bq (start t w)) miss idle)
  ]
]

ToDo-keys : (now k : ℕ) (s : EventStream) → ToDo now k (keys s.bpf_events) (unswept s)
ToDo-keys now k s = elim (Option-cases (get k s.bpf_events)) [
  | inl e ↦ inr (rw e tt)
  | inr (q, e) ↦ inl (Among-of_get k s.bpf_events e)
]

right_of : {A : Type 0} → ⊥ ⊎ A → A
right_of (inl h) = absurd h
right_of (inr h) = h

-- A sweep of a valid stream ends, and then each thread either has no BPF event waiting, or it has no
-- JVM event waiting and the BPF event at the front of its queue is less than 30000 ms old.
pub sweep_all-IsIdle :
    (k now : ℕ) (s : EventStream)
    → IsValid s
    → (w : Swept) × (sweep_all now s ≡ some w) × IsIdle now k w
sweep_all-IsIdle k now s v =
    let (w, done, h) =
      sweep_all_rule (ToDo now k) now (λ t ts u bq _ h. settle-ToDo now k t ts u bq h) s
        v.bpf_valid.distinct (ToDo-keys now k s) in
    (w, done, right_of h)
