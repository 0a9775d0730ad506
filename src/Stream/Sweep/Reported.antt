-- ===== src/Stream/Sweep/Reported.antt =====
-- What holds of each BPF event that waits holds of each that a sweep reports.
use jbm.Prelude.{ℕ, ◌≡◌, sym, subst, List, map, reverse, some, All, All-append, All-parts}
use jbm.HashMap.{get}
use jbm.HashMap.Entries.{IsQueueMap, queue-All, store-IsQueueMap}
use jbm.Events.{BpfEvent}
use jbm.Matching.Drain.{drain}
use jbm.Matching.Drain.Accounts.{drain-bpf_account}
use jbm.Stream.{EventStream}
use jbm.Stream.Sweep.{Swept, start, settle, sweep_all}
use jbm.Stream.Sweep.Total.{sweep_all_rule}
use jbm.Stream.Sweep.Valid.{queue_of_get}

module _ (Q : BpfEvent → Type 0) where
  -- Of the BPF events that wait.
  abbrev pub Waiting : EventStream → Type 0
  Waiting s = IsQueueMap (λ _. Q) s.bpf_events

  -- Of those reported so far, and of those that wait.
  record Both (w : Swept) : Type 0 where
    waiting : Waiting w.stream
    reported : All Q (reverse (map (λ p. p.0) w.ret))

  settle-Both :
      (now t : ℕ) (w : Swept) (bq : List BpfEvent)
      → get t w.stream.bpf_events ≡ some bq
      → Both w
      → Both (settle t w (drain now bq (start t w)))
  settle-Both now t w bq e h =
      let d = drain now bq (start t w) in
      let front : All Q bq = subst (All Q) (queue_of_get t w e) (queue-All (λ _. Q) t h.waiting) in
      let whole = All-append Q (reverse (map (λ p. p.0) w.ret)) bq front h.reported in
      let parts =
        All-parts Q (reverse (map (λ p. p.0) d.1.ret)) d.0
          (subst (All Q) (sym (drain-bpf_account now bq (start t w))) whole) in
      record { waiting = store-IsQueueMap (λ _. Q) t d.0 parts.1 h.waiting; reported = parts.0 }

  pub sweep_all-Both :
      (now : ℕ) (s : EventStream)
      → Waiting s
      → (w : Swept) × (sweep_all now s ≡ some w)
        × Waiting w.stream
        × All Q (reverse (map (λ p. p.0) w.ret))
  sweep_all-Both now s h =
      let (w, done, b) =
        sweep_all_rule (λ _ u. Both u) now (λ t ts u bq e b. settle-Both now t u bq e b) s
          h.distinct (record { waiting = h; reported = tt }) in
      (w, done, b.waiting, b.reported)
