-- ===== src/Process/Expired.antt =====
-- What a round leaves waiting, and what it cannot leave waiting.
use mathlib.Core.List.{append_assoc}
use jbm.Prelude.{
  ℕ, ◌+◌, ◌≤◌, ◌≡◌, ◌<◌, inl, inr, List, ◌∷◌, ◌++◌, Option, some, Result, ok, err, Text, All,
  append-split, i64_max, u64_mod, arith, Option-cases, subst,
}
use jbm.HashMap.{queue}
use jbm.Events.{BpfEvent, Pair}
use jbm.Matching.Drain.{Sweeping, giveup_time}
use jbm.Matching.Drain.Waiting.{Waits}
use jbm.Stream.{EventStream, IsValid}
use jbm.Stream.Add.{Answers, Failure}
use jbm.Stream.Sweep.{start, sweep, unswept}
use jbm.Stream.Sweep.Idle.{IsIdle, IsIdle-unswept, sweep_all-IsIdle}
use jbm.Provider.{JvmStackTraceProvider}
use jbm.Process.{Poll, events_of_polls, add_all, after_fill, after_add, fill, process}
use jbm.Process.Laws.{add_all-IsValid}
use jbm.Process.Accounts.{reported_of, process-accounts}

-- The give-up time has passed for the event.
abbrev pub IsExpired : ℕ → BpfEvent → Type 0
IsExpired now b = b.timestamp + giveup_time ≤ now

Waits-not-expired :
    (now : ℕ) (b : BpfEvent) (bs : List BpfEvent) (s : Sweeping)
    → now < u64_mod
    → IsExpired now b
    → ¬ Waits now (b ∷ bs) s
Waits-not-expired now b bs s word old h = omega (arith, h.1)

module _ (k : ℕ) where
  sweep-IsIdle :
      (now : ℕ) (s s' : EventStream) (pairs : List Pair)
      → IsValid s
      → sweep now s ≡ some (s', pairs)
      → IsIdle now k (unswept s')
  unfolding sweep
  sweep-IsIdle now s s' pairs v e =
      let (w, done, idle) = sweep_all-IsIdle k now s v in
      let stream : w.stream ≡ s' = ground (arith, e, done) in
      subst (λ u. IsIdle now k (unswept u)) stream (IsIdle-unswept now k w idle)

  after_fill-IsIdle :
      (now : ℕ) (s s' : EventStream) (r : Result (Unit {0}) Text) (pairs : List Pair)
      → IsValid s
      → after_fill now s r ≡ (s', ok pairs)
      → IsIdle now k (unswept s')
  unfolding after_fill
  after_fill-IsIdle now s s' (err t) pairs v e = absurd (ground (arith, e))
  after_fill-IsIdle now s s' (ok _) pairs v e = elim (Option-cases (sweep now s)) [
    | inl f ↦ absurd (ground (arith, e, f))
    | inr ((one, ps), f) ↦ sweep-IsIdle now s s' pairs v (ground (arith, e, f))
  ]

module _ (P : JvmStackTraceProvider) (k : ℕ) where
  after_add-IsIdle :
      (now : ℕ) (st st' : P.State) (r : EventStream × Result (Unit {0}) Failure) (s' : EventStream)
      (pairs : List Pair)
      → IsValid r.0
      → after_add P now st r ≡ (st', s', ok pairs)
      → IsIdle now k (unswept s')
  unfolding after_add fill
  after_add-IsIdle now st st' (s, err t) s' pairs v e = absurd (ground (arith, e))
  after_add-IsIdle now st st' (s, ok _) s' pairs v e =
      after_fill-IsIdle k now (fill P st s).1 s' (fill P st s).2 pairs
        (record {
          bpf_valid = v.bpf_valid;
          jvm_valid = P.fill_queue-valid st s.jvm_events v.jvm_valid;
        })
        (ground (arith, e))

  -- After a round that succeeds a thread has no BPF event waiting, or it has no JVM event waiting and the
  -- BPF event at the front of its queue is less than 30000 ms old.
  pub process-IsIdle :
      (polls : List (Option (Result Poll Text))) (ask : ℕ → Answers) (now : ℕ) (st st' : P.State)
      (s s' : EventStream) (pairs : List Pair)
      → ((n : ℕ) → (ask n).now < i64_max)
      → IsValid s
      → process P polls ask now st s ≡ (st', s', ok pairs)
      → IsIdle now k (unswept s')
  unfolding process
  process-IsIdle polls ask now st st' s s' pairs h v e =
      let events = events_of_polls polls in
      after_add-IsIdle now st st' (add_all ask 0 events s) s' pairs
        (add_all-IsValid ask 0 events s h v) e

  -- No event waits for ever: a round that succeeds reports the events at the front of a thread's queue for
  -- which 30000 ms have passed, all of them and before any other event of the thread.
  pub process-reports_expired :
      (polls : List (Option (Result Poll Text))) (ask : ℕ → Answers) (now : ℕ) (st st' : P.State)
      (s s' : EventStream) (pairs : List Pair) (old young : List BpfEvent)
      → ((n : ℕ) → (ask n).now < i64_max)
      → now < u64_mod
      → IsValid s
      → queue k s.bpf_events ≡ old ++ young
      → All (IsExpired now) old
      → process P polls ask now st s ≡ (st', s', ok pairs)
      → (more : List BpfEvent) × (reported_of k pairs ≡ old ++ more)
  process-reports_expired polls ask now st st' s s' pairs old young h word v waiting expired e =
      let (added, to, same) = process-accounts P k polls ask now st st' s s' pairs h v e in
      let idle = process-IsIdle polls ask now st st' s s' pairs h v e in
      let parts : reported_of k pairs ++ queue k s'.bpf_events ≡ old ++ (young ++ added) =
        rw (to, waiting) (append_assoc old young added) in
      elim (append-split (IsExpired now) old (young ++ added) (reported_of k pairs)
        (queue k s'.bpf_events) expired parts) [
          | inl more ↦ more
          | inr (b, left, front, old_b) ↦
              absurd
                (Waits-not-expired now b left (start k (unswept s')) word old_b (rw front at idle))
        ]
