-- ===== src/Monitor/Traces.antt =====
-- Over all the rounds of the loop no line of the profiler's file is lost or used twice.
use mathlib.Core.List.{append-nil, append_assoc, Perm, filter-append}
use mathlib.Core.List.Perm
use native.Mathlib.Decide.{ℕ_discrete}
use jbm.Prelude.{
  ℕ, ◌≡◌, refl, ap, List, [], ◌∷◌, ◌++◌, Option, Result, ok, Text, arith, All, inl, inr, subst,
}
use jbm.HashMap.{queue}
use jbm.Events.{JvmEvent, Pair}
use jbm.Matching.Drain.Accounts.{matched, perm_rotate}
use jbm.Stream.{EventStream, IsValid}
use jbm.Provider.{JvmStackTraceProvider}
use jbm.Provider.AsyncProfiler.{events_of, reads_of, later_of, async_profiler, queue-fill_queue}
use jbm.Process.{process}
use jbm.Process.Laws.{process-keeps}
use jbm.Process.Traces.{traces_of, traces_in, discarded_in, matched-append, process-traces}
use jbm.Monitor.{Tick, running, Monitor, print_all, main_loop}
use jbm.Monitor.Laws.{InTime}
use jbm.Monitor.Accounts.{Round-cases}

-- One round, and then the others, on the sides of an account.
join_accounts :
    {A : Type 0} (a p c q1 q new rest all : List A)
    → Perm ((a ++ c) ++ q1) (q ++ new)
    → Perm all (((p ++ c) ++ q1) ++ rest)
    → Perm (a ++ all) ((p ++ q) ++ (new ++ rest))
join_accounts a p c q1 q new rest all one others = Perm.trans (Perm.append_left a others) (
    rw (append_assoc p c q1, append_assoc p (c ++ q1) rest)
      (Perm.trans (perm_rotate a p ((c ++ q1) ++ rest)) (
        rw
          (
            append_assoc p q (new ++ rest),
            ← append_assoc q new rest,
            ← append_assoc a (c ++ q1) rest,
            ← append_assoc a c q1,
          )
          (Perm.append_left p (Perm.append_right rest one)))))

module _ (parse : Text → Option JvmEvent) (k : ℕ) where
  abbrev P : JvmStackTraceProvider
  P = async_profiler parse

  -- The JVM events of thread `k` in the lines that the rounds read, one call of the provider a round.
  abbrev pub traces_read : List Tick → List (List (Result Text Text)) → List JvmEvent
  traces_read [] calls = []
  traces_read (tick ∷ ticks) calls =
      events_of parse k (reads_of calls) ++ traces_read ticks (later_of calls)

  -- The JVM events that the sweeps of the rounds trash, round after round.
  abbrev pub discarded_by : List Tick → Monitor P → List JvmEvent
  discarded_by [] m = []
  discarded_by (tick ∷ ticks) m =
      discarded_in P k tick.polls tick.ask tick.now m.provider m.stream
      ++ discarded_by ticks
          (print_all P m (process P tick.polls tick.ask tick.now m.provider m.stream))

  traces_of-append :
      (xs ys : List JvmEvent) → traces_of k (xs ++ ys) ≡ traces_of k xs ++ traces_of k ys
  traces_of-append xs ys = filter-append (λ (j : JvmEvent). ℕ_discrete j.tid k) xs ys

  traces_in-append :
      (d1 d2 : List JvmEvent) (pairs : List Pair) (s : EventStream)
      → traces_in k (d1 ++ d2) pairs s ≡ traces_of k d1 ++ traces_in k d2 pairs s
  traces_in-append d1 d2 pairs s =
      rw
        (
          append_assoc d1 d2 (matched pairs),
          traces_of-append d1 (d2 ++ matched pairs),
          append_assoc (traces_of k d1) (traces_of k (d2 ++ matched pairs)) (queue k s.jvm_events),
        )
        refl

  -- From the accounts of one round and of the rounds after it.
  join_rounds :
      (m : Monitor P) (pairs : List Pair) (s1 : EventStream) (d1 d2 new rest : List JvmEvent)
      (last : Monitor P)
      → Perm (traces_in k d1 pairs s1) (queue k m.stream.jvm_events ++ new)
      → Perm
          (traces_in k d2 last.printed last.stream)
          (traces_in k [] (m.printed ++ pairs) s1 ++ rest)
      → Perm
          (traces_in k (d1 ++ d2) last.printed last.stream)
          (traces_in k [] m.printed m.stream ++ (new ++ rest))
  join_rounds m pairs s1 d1 d2 new rest last one others =
      rw (traces_in-append d1 d2 last.printed last.stream) (
        join_accounts (traces_of k d1) (traces_of k (matched m.printed))
          (traces_of k (matched pairs)) (queue k s1.jvm_events) (queue k m.stream.jvm_events) new
          rest (traces_in k d2 last.printed last.stream)
          (rw (traces_of-append d1 (matched pairs)) at one)
          (rw (matched-append m.printed pairs, traces_of-append (matched m.printed) (matched pairs))
            at others))

  -- As long as the loop runs it accounts for each JVM event of a thread that async-profiler has written:
  -- those that the sweeps of the rounds have trashed, those in the pairs that are printed, and those in the
  -- queue are those in the pairs and the queue at the start and those of the lines read in all the rounds,
  -- each once. So a line gives a Java stack to one block at most, and no printed stack is without a line. The
  -- stream must be valid at the start, the clock stays below 2 ^ 63, and so do the times in the lines that the
  -- calls of the provider are to read.
  pub main_loop-traces :
      (ticks : List Tick) (m : Monitor P)
      → All InTime ticks
      → IsValid m.stream
      → (main_loop P ticks m).1 ≡ running
      → let last = (main_loop P ticks m).0 in
        Perm
          (traces_in k (discarded_by ticks m) last.printed last.stream)
          (traces_in k [] m.printed m.stream ++ traces_read ticks (m.provider).0)
  unfolding main_loop print_all
  main_loop-traces [] m h v e = rw (append-nil (traces_in k [] m.printed m.stream)) (Perm.refl _)
  main_loop-traces (tick ∷ ticks) m h v e =
      let keeps = process-keeps P tick.polls tick.ask tick.now m.provider m.stream h.0 v in
      elim (Round-cases (process P tick.polls tick.ask tick.now m.provider m.stream)) [
        | inl (st', s', pairs, f) ↦
            let m' = print_all P m (st', s', ok pairs) in
            let (next, one) =
              process-traces P k tick.polls tick.ask tick.now m.provider st' m.stream s' pairs h.0 v
                f in
            let goes : (main_loop P ticks m').1 ≡ running = ground (arith, e, f) in
            let ends : (main_loop P (tick ∷ ticks) m).0 ≡ (main_loop P ticks m').0 =
              ground (arith, e, f) in
            let calls = (m.provider).0 in
            let new = events_of parse k (reads_of calls) in
            let last = (main_loop P ticks m').0 in
            let d1 = discarded_in P k tick.polls tick.ask tick.now m.provider m.stream in
            let d2 = discarded_by ticks m' in
            let others = main_loop-traces ticks m' h.1 (subst (λ r. IsValid r.1) f keeps.0) goes in
            let later : st'.0 ≡ later_of calls = ap (λ st. st.0) next in
            rw (ends, f)
              (subst
                (λ left.
                  Perm (traces_in k (d1 ++ d2) last.printed last.stream)
                    (traces_in k [] m.printed m.stream ++ (new ++ traces_read ticks left)))
                later
                (join_rounds m pairs s' d1 d2 new (traces_read ticks st'.0) last
                  (rw (queue-fill_queue parse k (reads_of calls) m.stream.jvm_events) at one)
                  others))
        | inr (st', s', t, f) ↦ absurd (ground (arith, e, f))
      ]
