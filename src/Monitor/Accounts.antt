-- ===== src/Monitor/Accounts.antt =====
-- Over all the rounds of the loop no record is lost.
use mathlib.Core.List.{append_assoc, append-nil, map-append, filter-append}
use native.Mathlib.Decide.{ℕ_discrete}
use jbm.Prelude.{
  ℕ, ◌≡◌, refl, ap, sym, ◌∙◌, List, [], ◌∷◌, ◌++◌, map, Result, ok, err, All, arith, inl, inr, ◌⊎◌,
  subst,
}
use jbm.Common.{BlockEvent}
use jbm.HashMap.{queue}
use jbm.Events.{BpfEvent, Pair}
use jbm.Stream.{EventStream, IsValid}
use jbm.Stream.Add.{Failure}
use jbm.Stream.Sweep.Accounts.{of_key}
use jbm.Provider.{JvmStackTraceProvider}
use jbm.Process.{events_of_polls, process}
use jbm.Process.Laws.{process-keeps}
use jbm.Process.Accounts.{record_of, record_in, records_of, reported_of, process-accounts}
use jbm.Monitor.{Tick, running, Monitor, print_all, main_loop}
use jbm.Monitor.Laws.{InTime}

-- The records that the ticks bring.
abbrev pub events_of_ticks : List Tick → List BlockEvent
events_of_ticks [] = []
events_of_ticks (tick ∷ ticks) = events_of_polls tick.polls ++ events_of_ticks ticks

module _ (k : ℕ) where
  pub reported_of-append :
      (ps qs : List Pair) → reported_of k (ps ++ qs) ≡ reported_of k ps ++ reported_of k qs
  reported_of-append ps qs =
      ap (of_key (λ b. b.tid) k) (map-append (λ p. p.0) ps qs)
      ∙ filter-append (λ (b : BpfEvent). ℕ_discrete b.tid k) (map (λ p. p.0) ps) (map (λ p. p.0) qs)

  records_of-append :
      (es fs : List BlockEvent) → records_of k (es ++ fs) ≡ records_of k es ++ records_of k fs
  records_of-append es fs = filter-append (λ (e : BlockEvent). ℕ_discrete e.pid k) es fs

module _ {P : JvmStackTraceProvider} (k : ℕ) where
  -- The BPF events of thread `k`: those printed, and then its queue.
  abbrev pub seen_of : Monitor P → List BpfEvent
  seen_of m = reported_of k m.printed ++ queue k m.stream.bpf_events

  -- One round that succeeds.
  round-accounts :
      (tick : Tick) (m : Monitor P) (st' : P.State) (s' : EventStream) (pairs : List Pair)
      → InTime tick
      → IsValid m.stream
      → process P tick.polls tick.ask tick.now m.provider m.stream ≡ (st', s', ok pairs)
      → (added : List BpfEvent) × (seen_of (print_all P m (st', s', ok pairs)) ≡ seen_of m ++ added)
        × (map record_of added ≡ map record_in (records_of k (events_of_polls tick.polls)))
  unfolding print_all
  round-accounts tick m st' s' pairs h v e =
      let (added, to, same) =
        process-accounts P k tick.polls tick.ask tick.now m.provider st' m.stream s' pairs h v e in
      let a = reported_of k m.printed in
      let b = reported_of k pairs in
      (
        added,
        ap (λ l. l ++ queue k s'.bpf_events) (reported_of-append k m.printed pairs)
            ∙ (append_assoc a b (queue k s'.bpf_events)
                ∙ (ap (λ l. a ++ l) to ∙ sym (append_assoc a (queue k m.stream.bpf_events) added))),
        same,
      )

-- How a round ends.
pub Round-cases :
    {A B C : Type 0} (r : A × B × Result C Failure)
    → ((a : A) × (b : B) × (c : C) × (r ≡ (a, b, ok c)))
      ⊎ ((a : A) × (b : B) × (f : Failure) × (r ≡ (a, b, err f)))
Round-cases (a, b, ok c) = inl (a, b, c, refl)
Round-cases (a, b, err f) = inr (a, b, f, refl)

module _ (P : JvmStackTraceProvider) (k : ℕ) where
  -- As long as the loop runs it accounts for each record of a thread: the events of the thread that it has
  -- printed, in the order of the output, and the queue of the thread make up those at the start and the
  -- records of the thread that all the rounds brought, in their order. Each of these comes as one event
  -- with the thread, the process and the time of its record. The stream must be valid at the start and the
  -- clock stay below 2 ^ 63.
  pub main_loop-accounts :
      (ticks : List Tick) (m : Monitor P)
      → All InTime ticks
      → IsValid m.stream
      → (main_loop P ticks m).1 ≡ running
      → (added : List BpfEvent) × (seen_of k (main_loop P ticks m).0 ≡ seen_of k m ++ added)
        × (map record_of added ≡ map record_in (records_of k (events_of_ticks ticks)))
  unfolding main_loop
  main_loop-accounts [] m h v e = ([], sym (append-nil (seen_of k m)), refl)
  main_loop-accounts (tick ∷ ticks) m h v e =
      let keeps = process-keeps P tick.polls tick.ask tick.now m.provider m.stream h.0 v in
      elim (Round-cases (process P tick.polls tick.ask tick.now m.provider m.stream)) [
        | inl (st', s', pairs, f) ↦
            let m' = print_all P m (st', s', ok pairs) in
            let (one, to, same) = round-accounts k tick m st' s' pairs h.0 v f in
            let goes : (main_loop P ticks m').1 ≡ running = ground (arith, e, f) in
            let ends : (main_loop P (tick ∷ ticks) m).0 ≡ (main_loop P ticks m').0 =
              ground (arith, e, f) in
            let (rest, to', same') =
              main_loop-accounts ticks m' h.1 (subst (λ r. IsValid r.1) f keeps.0) goes in
            (
              one ++ rest,
              ap (seen_of k) ends
                  ∙ (to' ∙ (ap (λ l. l ++ rest) to ∙ append_assoc (seen_of k m) one rest)),
              map-append record_of one rest
                  ∙ (ap (λ l. l ++ map record_of rest) same
                      ∙ (ap (λ l. map record_in (records_of k (events_of_polls tick.polls)) ++ l)
                            same'
                          ∙ (sym (
                                map-append record_in (records_of k (events_of_polls tick.polls))
                                  (records_of k (events_of_ticks ticks)))
                              ∙ ap (map record_in) (
                                  sym (
                                    records_of-append k (events_of_polls tick.polls)
                                      (events_of_ticks ticks)))))),
            )
        | inr (st', s', t, f) ↦ absurd (ground (arith, e, f))
      ]
