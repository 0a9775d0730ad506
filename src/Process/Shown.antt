-- ===== src/Process/Shown.antt =====
-- The times that a round shows are those of its clock.
use jbm.Prelude.{
  ℕ, suc, ◌≤◌, List, [], ◌∷◌, map, Option, Result, ok, err, Text, All, arith, Result-cases, inl,
  inr,
}
use jbm.Common.{BlockEvent}
use jbm.HashMap.Entries.{push_back-IsQueueMap}
use jbm.Events.{BpfEvent, Pair}
use jbm.Stream.{EventStream}
use jbm.Stream.Add.{Answers, Failure, add_bpf_event}
use jbm.Stream.Add.Laws.{add_bpf_event-at}
use jbm.Stream.Sweep.{sweep}
use jbm.Stream.Sweep.Reported.{Waiting, sweep_all-Both}
use jbm.Provider.{JvmStackTraceProvider}
use jbm.Process.{Poll, events_of_polls, add_all, after_fill, after_add, fill, process}
use jbm.Process.Accounts.{map-reverse}

-- Not after `last`.
abbrev pub NotAfter : ℕ → BpfEvent → Type 0
NotAfter last b = b.timestamp ≤ last

abbrev pub AllNotAfter : ℕ → Result (List Pair) Failure → Type 0
AllNotAfter last (ok pairs) = All (NotAfter last) (map (λ p. p.0) pairs)
AllNotAfter last (err f) = Unit {0}

module _ (last : ℕ) where
  add_all-Waiting :
      (ask : ℕ → Answers) (i : ℕ) (events : List BlockEvent) (s : EventStream)
      → ((n : ℕ) → (ask n).now ≤ last)
      → Waiting (NotAfter last) s
      → Waiting (NotAfter last) (add_all ask i events s).0
  unfolding add_all
  add_all-Waiting ask i [] s h v = v
  add_all-Waiting ask i (event ∷ events) s h v =
      elim (Result-cases (add_bpf_event (ask i) event s)) [
        | inl ((s', w), e) ↦
            let (b, same, at) = add_bpf_event-at (ask i) event s s' e in
            let v' : Waiting (NotAfter last) s' =
              rw same (
                push_back-IsQueueMap (λ _. NotAfter last) event.pid b (omega (arith, at, h i)) v) in
            rw (e, add_all) (add_all-Waiting ask (suc i) events s' h v')
        | inr (f, e) ↦ rw (e, add_all) v
      ]

  after_fill-Waiting :
      (now : ℕ) (s : EventStream) (r : Result (Unit {0}) Text)
      → Waiting (NotAfter last) s
      → Waiting (NotAfter last) (after_fill now s r).0 × AllNotAfter last (after_fill now s r).1
  unfolding after_fill sweep
  after_fill-Waiting now s (err e) v = (v, tt)
  after_fill-Waiting now s (ok _) v =
      let (w, done, waiting, reported) = sweep_all-Both (NotAfter last) now s v in
      (rw (done, after_fill) waiting, rw (done, after_fill) (rw (map-reverse 0 w.ret) reported))

  module _ (P : JvmStackTraceProvider) where
    after_add-Waiting :
        (now : ℕ) (st : P.State) (r : EventStream × Result (Unit {0}) Failure)
        → Waiting (NotAfter last) r.0
        → Waiting (NotAfter last) (after_add P now st r).1
          × AllNotAfter last (after_add P now st r).2
    unfolding after_add fill
    after_add-Waiting now st (s, err failure) v = (v, tt)
    after_add-Waiting now st (s, ok _) v = after_fill-Waiting now (fill P st s).1 (fill P st s).2 v

    -- With the wall clock at `last` or before, no event that waits or is reported is later than `last`.
    pub process-Waiting :
        (polls : List (Option (Result Poll Text))) (ask : ℕ → Answers) (now : ℕ) (st : P.State)
        (s : EventStream)
        → ((n : ℕ) → (ask n).now ≤ last)
        → Waiting (NotAfter last) s
        → let r = process P polls ask now st s in Waiting (NotAfter last) r.1 × AllNotAfter last r.2
    unfolding process
    process-Waiting polls ask now st s h v =
        after_add-Waiting now st (add_all ask 0 (events_of_polls polls) s)
          (add_all-Waiting ask 0 (events_of_polls polls) s h v)
