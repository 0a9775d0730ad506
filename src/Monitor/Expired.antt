-- ===== src/Monitor/Expired.antt =====
-- No event waits for ever in the loop of `main`.
use mathlib.Core.List.{append_assoc, append-nil}
use jbm.Prelude.{
  ℕ, ◌≡◌, ◌<◌, ap, sym, ◌∙◌, List, [], ◌∷◌, ◌++◌, Bool-cases, All, arith, inl, inr, u64_mod, ok,
}
use jbm.HashMap.{queue}
use jbm.Events.{BpfEvent, Pair}
use jbm.Stream.{IsValid}
use jbm.Provider.{JvmStackTraceProvider}
use jbm.Process.{process}
use jbm.Process.Accounts.{reported_of}
use jbm.Process.Expired.{IsExpired, process-reports_expired}
use jbm.Monitor.{Tick, running, Monitor, print_all, main_loop}
use jbm.Monitor.Laws.{InTime}
use jbm.Monitor.Accounts.{reported_of-append, Round-cases}

module _ (P : JvmStackTraceProvider) where
  -- The output is only added to.
  pub main_loop-printed :
      (ticks : List Tick) (m : Monitor P)
      → (ps : List Pair) × ((main_loop P ticks m).0.printed ≡ m.printed ++ ps)
  unfolding main_loop print_all
  main_loop-printed [] m = ([], sym (append-nil m.printed))
  main_loop-printed (tick ∷ ticks) m = elim (Bool-cases tick.has_done) [
    | inl d ↦ ([], ground (arith, d, append-nil m.printed))
    | inr d ↦ elim (Bool-cases tick.pid_alive) [
      | inr a ↦ ([], ground (arith, d, a, append-nil m.printed))
      | inl a ↦ elim (Round-cases (process P tick.polls tick.ask tick.now m.provider m.stream)) [
        | inr (st, s, f, e) ↦ ([], ground (arith, d, a, e, append-nil m.printed))
        | inl (st, s, pairs, e) ↦
            let (ps, same) = main_loop-printed ticks (print_all P m (st, s, ok pairs)) in
            (pairs ++ ps, ground (arith, d, a, e, same, append_assoc m.printed pairs ps))
      ]
    ]
  ]

  -- Any event that waits at the start of a round of the loop which does not fail, and is 30000 ms old by
  -- then, is printed in this round, if all events of its thread in front of it are as old: the output goes
  -- on with these events of the thread, in their order. The stream must be valid, the clock below 2 ^ 63
  -- when the events of the round are added, and a u64 at the sweep.
  pub main_loop-prints_expired :
      (k : ℕ) (tick : Tick) (ticks : List Tick) (m : Monitor P) (old young : List BpfEvent)
      → InTime tick
      → tick.now < u64_mod
      → IsValid m.stream
      → queue k m.stream.bpf_events ≡ old ++ young
      → All (IsExpired tick.now) old
      → (main_loop P (tick ∷ ticks) m).1 ≡ running
      → (more : List BpfEvent) × (reported_of k (main_loop P (tick ∷ ticks) m).0.printed
          ≡ reported_of k m.printed ++ (old ++ more))
  unfolding main_loop print_all
  main_loop-prints_expired k tick ticks m old young h word v waiting expired runs =
      elim (Round-cases (process P tick.polls tick.ask tick.now m.provider m.stream)) [
        | inr (st, s, f, e) ↦ absurd (ground (arith, runs, e))
        | inl (st, s, pairs, e) ↦
            let (more, reports) =
              process-reports_expired P k tick.polls tick.ask tick.now m.provider st m.stream s
                pairs old young h word v waiting expired e in
            let (ps, same) = main_loop-printed ticks (print_all P m (st, s, ok pairs)) in
            let whole : (main_loop P (tick ∷ ticks) m).0.printed ≡ (m.printed ++ pairs) ++ ps =
              ground (arith, runs, e, same) in
            (
              more ++ reported_of k ps,
              ap (reported_of k) whole
                  ∙ (reported_of-append k (m.printed ++ pairs) ps
                      ∙ (ap (λ l. l ++ reported_of k ps) (reported_of-append k m.printed pairs)
                          ∙ (append_assoc (reported_of k m.printed) (reported_of k pairs)
                                (reported_of k ps)
                              ∙ ap (λ l. reported_of k m.printed ++ l)
                                  (ap (λ l. l ++ reported_of k ps) reports
                                    ∙ append_assoc old more (reported_of k ps))))),
            )
      ]
