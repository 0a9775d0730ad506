-- ===== src/Process/Accounts.antt =====
-- A round loses no record: what arrives is reported or waits.
use mathlib.Core.List.{append_assoc, append-nil, map-append, reverse-cons}
use native.Mathlib.Decide.{ℕ_discrete}
use jbm.Prelude.{
  ℕ, suc, ◌≡◌, ◌<◌, refl, ap, ◌∙◌, List, [], ◌∷◌, ◌++◌, map, reverse, Option, some, Result, ok, err,
  Text, i64_max, arith, Result-cases, Option-cases, Bool-cases, inl, inr, ◌==◌, if◌then◌else◌,
}
use jbm.Common.{BlockEvent}
use jbm.HashMap.{queue}
use jbm.Events.{BpfEvent, Pair}
use jbm.Stream.{EventStream, IsValid}
use jbm.Stream.Add.{Answers, Failure, add_bpf_event}
use jbm.Stream.Add.Laws.{add_bpf_event-queue}
use jbm.Stream.Sweep.{sweep}
use jbm.Stream.Sweep.Accounts.{of_key, sweep_all-accounts}
use jbm.Provider.{JvmStackTraceProvider}
use jbm.Process.{Poll, events_of_polls, add_all, after_fill, after_add, fill, process}
use jbm.Process.Laws.{add_all-IsValid}

-- What a record and its event have in common: thread, process, and time off the CPU.
abbrev pub record_of : BpfEvent → ℕ × ℕ × ℕ
record_of b = (b.tid, b.pid, b.duration)

abbrev pub record_in : BlockEvent → ℕ × ℕ × ℕ
record_in event = (event.pid, event.tgid, event.offtime)

module _ (k : ℕ) where
  -- The records of thread `k`, in their order.
  abbrev pub records_of : List BlockEvent → List BlockEvent
  records_of = of_key (λ event. event.pid) k

  -- One record in front of the others.
  records_of-cons :
      (event : BlockEvent) (events : List BlockEvent)
      → records_of (event ∷ events)
        ≡ (if event.pid == k then event ∷ records_of events else records_of events)
  unfolding ℕ_discrete
  records_of-cons event events = ground arith

  add_all-accounts :
      (ask : ℕ → Answers) (i : ℕ) (events : List BlockEvent) (s s' : EventStream)
      → add_all ask i events s ≡ (s', ok tt)
      → (added : List BpfEvent) × (queue k s'.bpf_events ≡ queue k s.bpf_events ++ added)
        × (map record_of added ≡ map record_in (records_of events))
  unfolding add_all
  add_all-accounts ask i [] s s' e =
      ([], ground (arith, e, append-nil (queue k s.bpf_events)), refl)
  add_all-accounts ask i (event ∷ events) s s' e =
      elim (Result-cases (add_bpf_event (ask i) event s)) [
        | inl ((one, w), f) ↦
            let (b, put, jvm, tid, pid, duration, at) =
              add_bpf_event-queue (ask i) event s one k f in
            let rest : add_all ask (suc i) events one ≡ (s', ok tt) = ground (arith, e, f) in
            let (added, to, same) = add_all-accounts ask (suc i) events one s' rest in
            let front = records_of-cons event events in
            elim (Bool-cases (event.pid == k)) [
              | inl hit ↦ (
                b ∷ added,
                ground (arith, hit, put, to, append_assoc (queue k s.bpf_events) (b ∷ []) added),
                rw (front, hit) (ground (arith, same, tid, pid, duration)),
              )
              | inr miss ↦ (added, ground (arith, miss, put, to), rw (front, miss) same)
            ]
        | inr (t, f) ↦ absurd (ground (arith, e, f))
      ]

  pub map-reverse : (ps : List Pair) → map (λ p. p.0) (reverse ps) ≡ reverse (map (λ p. p.0) ps)
  map-reverse [] = refl
  map-reverse (p ∷ ps) =
      rw
        (
          reverse-cons p ps,
          reverse-cons p.0 (map (λ q. q.0) ps),
          map-append (λ q. q.0) (reverse ps) (p ∷ []),
        )
        (ap (λ l. l ++ (p.0 ∷ [])) (map-reverse ps))

  -- The events of thread `k` among the pairs, in their order.
  abbrev pub reported_of : List Pair → List BpfEvent
  reported_of pairs = of_key (λ b. b.tid) k (map (λ p. p.0) pairs)

  sweep-accounts :
      (now : ℕ) (s s' : EventStream) (pairs : List Pair)
      → IsValid s
      → sweep now s ≡ some (s', pairs)
      → reported_of pairs ++ queue k s'.bpf_events ≡ queue k s.bpf_events
  unfolding sweep
  sweep-accounts now s s' pairs v e =
      let (w, done, bpf, jvm) = sweep_all-accounts k now s v in
      let stream : w.stream ≡ s' = ground (arith, e, done) in
      let ret : reverse w.ret ≡ pairs = ground (arith, e, done) in
      rw (← stream, ← ret) (rw (map-reverse w.ret) bpf)

  after_fill-accounts :
      (now : ℕ) (s s' : EventStream) (r : Result (Unit {0}) Text) (pairs : List Pair)
      → IsValid s
      → after_fill now s r ≡ (s', ok pairs)
      → reported_of pairs ++ queue k s'.bpf_events ≡ queue k s.bpf_events
  unfolding after_fill
  after_fill-accounts now s s' (err t) pairs v e = absurd (ground (arith, e))
  after_fill-accounts now s s' (ok _) pairs v e = elim (Option-cases (sweep now s)) [
    | inl f ↦ absurd (ground (arith, e, f))
    | inr ((one, ps), f) ↦ sweep-accounts now s s' pairs v (ground (arith, e, f))
  ]

module _ (P : JvmStackTraceProvider) (k : ℕ) where
  after_add-accounts :
      (now : ℕ) (st st' : P.State) (r : EventStream × Result (Unit {0}) Failure) (s' : EventStream)
      (pairs : List Pair)
      → IsValid r.0
      → after_add P now st r ≡ (st', s', ok pairs)
      → (r.1 ≡ ok tt) × (reported_of k pairs ++ queue k s'.bpf_events ≡ queue k (r.0).bpf_events)
  unfolding after_add fill
  after_add-accounts now st st' (s, err t) s' pairs v e = absurd (ground (arith, e))
  after_add-accounts now st st' (s, ok _) s' pairs v e = (
    refl,
    after_fill-accounts k now (fill P st s).1 s' (fill P st s).2 pairs
        (record {
          bpf_valid = v.bpf_valid;
          jvm_valid = P.fill_queue-valid st s.jvm_events v.jvm_valid;
        })
        (ground (arith, e)),
  )

  -- A round that succeeds on a valid stream accounts for each record of a thread: the events of the thread
  -- that it reports, in the order of the report, and its new queue make up its old queue and the records of
  -- the thread that the polls brought, in the order of the buffers. Each of these comes as one event with
  -- the thread, the process and the time of its record. The clock must be below 2 ^ 63.
  pub process-accounts :
      (polls : List (Option (Result Poll Text))) (ask : ℕ → Answers) (now : ℕ) (st st' : P.State)
      (s s' : EventStream) (pairs : List Pair)
      → ((n : ℕ) → (ask n).now < i64_max)
      → IsValid s
      → process P polls ask now st s ≡ (st', s', ok pairs)
      → (added : List BpfEvent) × (reported_of k pairs ++ queue k s'.bpf_events
          ≡ queue k s.bpf_events ++ added)
        × (map record_of added ≡ map record_in (records_of k (events_of_polls polls)))
  unfolding process
  process-accounts polls ask now st st' s s' pairs h v e =
      let events = events_of_polls polls in
      let r = add_all ask 0 events s in
      let (all, balance) =
        after_add-accounts now st st' r s' pairs (add_all-IsValid ask 0 events s h v) e in
      let (added, to, same) = add_all-accounts k ask 0 events s r.0 (ground (arith, all)) in
      (added, balance ∙ to, same)
