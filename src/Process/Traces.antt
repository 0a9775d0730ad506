-- ===== src/Process/Traces.antt =====
-- A round loses no JVM event, and uses none twice.
use mathlib.Core.List.{append-nil, append_assoc, reverse-cons, Perm, perm_append_comm}
use mathlib.Core.List.Perm
use native.Mathlib.Decide.{ℕ_discrete}
use jbm.Prelude.{
  ℕ, suc, ◌≡◌, ◌<◌, refl, ap, sym, subst, ◌∙◌, List, [], ◌∷◌, ◌++◌, reverse, Option, none, some,
  Result, ok, err, Text, i64_max, arith, Result-cases, Option-cases, inl, inr,
}
use jbm.Common.{BlockEvent}
use jbm.HashMap.{queue}
use jbm.Events.{JvmEvent, Pair}
use jbm.Matching.Find.Laws.{found_list}
use jbm.Matching.Drain.Accounts.{matched}
use jbm.Stream.{EventStream, IsValid}
use jbm.Stream.Add.{Answers, Failure, add_bpf_event}
use jbm.Stream.Add.Laws.{add_bpf_event-queue}
use jbm.Stream.Sweep.{Swept, sweep, sweep_all}
use jbm.Stream.Sweep.Accounts.{of_key, sweep_all-accounts}
use jbm.Provider.{JvmStackTraceProvider}
use jbm.Process.{Poll, events_of_polls, add_all, after_fill, after_add, fill, process}
use jbm.Process.Laws.{add_all-IsValid}

pub matched-append : (ps qs : List Pair) → matched (ps ++ qs) ≡ matched ps ++ matched qs
matched-append [] qs = refl
matched-append ((b, j) ∷ ps) qs =
    ap (λ l. found_list j ++ l) (matched-append ps qs)
    ∙ sym (append_assoc (found_list j) (matched ps) (matched qs))

matched-reverse : (ps : List Pair) → Perm (matched (reverse ps)) (matched ps)
matched-reverse [] = Perm.refl []
matched-reverse ((b, j) ∷ ps) =
    rw
      (reverse-cons (b, j) ps, matched-append (reverse ps) ((b, j) ∷ []), append-nil (found_list j))
      (Perm.trans (perm_append_comm (matched (reverse ps)) (found_list j))
        (Perm.append_left (found_list j) (matched-reverse ps)))

-- What a sweep hands to `trash_jvm_event`.
abbrev pub trashed_of : Option Swept → List JvmEvent
trashed_of none = []
trashed_of (some w) = w.trashed

module _ (k : ℕ) where
  -- The JVM events of thread `k`.
  abbrev pub traces_of : List JvmEvent → List JvmEvent
  traces_of = of_key (λ j. j.tid) k

  -- Thread `k`'s JVM events that were discarded, that pairs hold, and that wait.
  abbrev pub traces_in : List JvmEvent → List Pair → EventStream → List JvmEvent
  traces_in discarded pairs s = traces_of (discarded ++ matched pairs) ++ queue k s.jvm_events

  sweep-traces :
      (now : ℕ) (s s' : EventStream) (pairs : List Pair)
      → IsValid s
      → sweep now s ≡ some (s', pairs)
      → Perm (traces_in (trashed_of (sweep_all now s)) pairs s') (queue k s.jvm_events)
  unfolding sweep
  sweep-traces now s s' pairs v e =
      let (w, done, bpf, jvm) = sweep_all-accounts k now s v in
      let stream : w.stream ≡ s' = ground (arith, e, done) in
      let ret : reverse w.ret ≡ pairs = ground (arith, e, done) in
      rw (done, ← stream, ← ret)
        (Perm.trans
          (Perm.append_right (queue k w.stream.jvm_events) (
            Perm.filter (λ j. ℕ_discrete j.tid k)
              (Perm.append_left w.trashed (matched-reverse w.ret))))
          jvm)

  after_fill-traces :
      (now : ℕ) (s s' : EventStream) (r : Result (Unit {0}) Text) (pairs : List Pair)
      → IsValid s
      → after_fill now s r ≡ (s', ok pairs)
      → Perm (traces_in (trashed_of (sweep_all now s)) pairs s') (queue k s.jvm_events)
  unfolding after_fill
  after_fill-traces now s s' (err t) pairs v e = absurd (ground (arith, e))
  after_fill-traces now s s' (ok _) pairs v e = elim (Option-cases (sweep now s)) [
    | inl f ↦ absurd (ground (arith, e, f))
    | inr ((one, ps), f) ↦ sweep-traces now s s' pairs v (ground (arith, e, f))
  ]

-- Adding BPF events leaves the JVM events alone.
add_all-jvm_events :
    (ask : ℕ → Answers) (i : ℕ) (events : List BlockEvent) (s : EventStream)
    → (add_all ask i events s).0.jvm_events ≡ s.jvm_events
unfolding add_all
add_all-jvm_events ask i [] s = refl
add_all-jvm_events ask i (event ∷ events) s = elim (Result-cases (add_bpf_event (ask i) event s)) [
  | inl ((one, w), f) ↦
      let (b, put, jvm, tid, pid, duration, at) = add_bpf_event-queue (ask i) event s one 0 f in
      rw (f, add_all) (add_all-jvm_events ask (suc i) events one ∙ jvm)
  | inr (t, f) ↦ rw (f, add_all) refl
]

module _ (P : JvmStackTraceProvider) (k : ℕ) where
  after_add-traces :
      (now : ℕ) (st st' : P.State) (r : EventStream × Result (Unit {0}) Failure) (s' : EventStream)
      (pairs : List Pair)
      → IsValid r.0
      → after_add P now st r ≡ (st', s', ok pairs)
      → (st' ≡ (P.fill_queue st (r.0).jvm_events).0)
        × Perm
            (traces_in k (trashed_of (sweep_all now (fill P st r.0).1)) pairs s')
            (queue k (P.fill_queue st (r.0).jvm_events).1)
  unfolding after_add fill
  after_add-traces now st st' (s, err t) s' pairs v e = absurd (ground (arith, e))
  after_add-traces now st st' (s, ok _) s' pairs v e = (
    ground (arith, e),
    after_fill-traces k now (fill P st s).1 s' (fill P st s).2 pairs
        (record {
          bpf_valid = v.bpf_valid;
          jvm_valid = P.fill_queue-valid st s.jvm_events v.jvm_valid;
        })
        (ground (arith, e)),
  )

  -- The JVM events that a round trashes: those of the sweep, after adding and filling.
  abbrev pub discarded_in :
      List (Option (Result Poll Text)) → (ℕ → Answers) → ℕ → P.State → EventStream → List JvmEvent
  discarded_in polls ask now st s =
      trashed_of (sweep_all now (fill P st (add_all ask 0 (events_of_polls polls) s).0).1)

  -- A round that succeeds asks the provider once, and accounts for each JVM event of a thread: those
  -- that it trashes, those in the pairs that it returns, and the new queue are the queue as the
  -- provider left it, each event once.
  pub process-traces :
      (polls : List (Option (Result Poll Text))) (ask : ℕ → Answers) (now : ℕ) (st st' : P.State)
      (s s' : EventStream) (pairs : List Pair)
      → ((n : ℕ) → (ask n).now < i64_max)
      → IsValid s
      → process P polls ask now st s ≡ (st', s', ok pairs)
      → (st' ≡ (P.fill_queue st s.jvm_events).0)
        × Perm
            (traces_in k (discarded_in polls ask now st s) pairs s')
            (queue k (P.fill_queue st s.jvm_events).1)
  unfolding process
  process-traces polls ask now st st' s s' pairs h v e =
      let events = events_of_polls polls in
      subst
        (λ q.
          (st' ≡ (P.fill_queue st q).0)
          × Perm (traces_in k (discarded_in polls ask now st s) pairs s')
              (queue k (P.fill_queue st q).1))
        (add_all-jvm_events ask 0 events s)
        (after_add-traces now st st' (add_all ask 0 events s) s' pairs
          (add_all-IsValid ask 0 events s h v) e)
