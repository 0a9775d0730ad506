-- ===== src/Process/Laws.antt =====
-- What a round keeps, and what it promises of the pairs that it returns.
use jbm.Prelude.{
  ℕ, suc, ◌≡◌, ◌<◌, ap, List, [], ◌∷◌, reverse, Option, some, Result, ok, err, Text, i64_max, All,
  All-reverse, Result-cases, inl, inr,
}
use jbm.Common.{BlockEvent}
use jbm.Events.{Pair}
use jbm.Matching.Drain.Window.{InWindow}
use jbm.Stream.{EventStream, IsValid}
use jbm.Stream.Add.{Answers, Failure, add_bpf_event}
use jbm.Stream.Add.Laws.{add_bpf_event-IsValid}
use jbm.Stream.Sweep.{sweep, oldest_first}
use jbm.Stream.Sweep.Valid.{sweep_all-IsSound}
use jbm.Provider.{JvmStackTraceProvider}
use jbm.Process.{Poll, events_of_polls, add_all, after_fill, after_add, fill, process}

pub add_all-IsValid :
    (ask : ℕ → Answers) (i : ℕ) (events : List BlockEvent) (s : EventStream)
    → ((n : ℕ) → (ask n).now < i64_max)
    → IsValid s
    → IsValid (add_all ask i events s).0
unfolding add_all
add_all-IsValid ask i [] s h v = v
add_all-IsValid ask i (event ∷ events) s h v = elim (Result-cases (add_bpf_event (ask i) event s)) [
  | inl ((s', w), e) ↦
      rw (e, add_all)
        (add_all-IsValid ask (suc i) events s' h
          (add_bpf_event-IsValid (ask i) event s s' (h i) e v))
  | inr (f, e) ↦ rw (e, add_all) v
]

-- A sweep of a valid stream returns: it does not panic, leaves a valid stream, and all its pairs lie in
-- their windows.
pub sweep-returns :
    (now : ℕ) (s : EventStream)
    → IsValid s
    → (s' : EventStream) × (pairs : List Pair) × (sweep now s ≡ some (s', pairs))
      × IsValid s'
      × All InWindow pairs
unfolding sweep
sweep-returns now s v =
    let (w, done, sound) = sweep_all-IsSound now s v in
    (
      w.stream,
      reverse w.ret,
      ap oldest_first done,
      sound.valid,
      All-reverse InWindow w.ret sound.windows,
    )

-- What a round promises of its outcome: the stream is valid, and each reported pair lies in its window.
abbrev pub InWindows : Result (List Pair) Failure → Type 0
InWindows (ok pairs) = All InWindow pairs
InWindows (err f) = Unit {0}

after_fill-keeps :
    (now : ℕ) (s : EventStream) (r : Result (Unit {0}) Text)
    → IsValid s
    → IsValid (after_fill now s r).0 × InWindows (after_fill now s r).1
unfolding after_fill
after_fill-keeps now s (err e) v = (v, tt)
after_fill-keeps now s (ok _) v =
    let (s', pairs, done, valid, windows) = sweep-returns now s v in
    (rw (done, after_fill) valid, rw (done, after_fill) windows)

module _ (P : JvmStackTraceProvider) where
  after_add-keeps :
      (now : ℕ) (st : P.State) (r : EventStream × Result (Unit {0}) Failure)
      → IsValid r.0
      → IsValid (after_add P now st r).1 × InWindows (after_add P now st r).2
  unfolding after_add fill
  after_add-keeps now st (s, err failure) v = (v, tt)
  after_add-keeps now st (s, ok _) v =
      after_fill-keeps now (fill P st s).1 (fill P st s).2 (record {
        bpf_valid = v.bpf_valid;
        jvm_valid = P.fill_queue-valid st s.jvm_events v.jvm_valid;
      })

  -- With a provider that adds events to the queues of their threads, with times below 2 ^ 63, and with the
  -- wall clock below 2 ^ 63, whatever the buffers and the other answers are: a round keeps the stream valid,
  -- also where it fails, and each pair that it returns lies in its window: its JVM event, if it has one, is
  -- not older than its BPF event and less than 1000 ms younger.
  pub process-keeps :
      (polls : List (Option (Result Poll Text))) (ask : ℕ → Answers) (now : ℕ) (st : P.State)
      (s : EventStream)
      → ((n : ℕ) → (ask n).now < i64_max)
      → IsValid s
      → let r = process P polls ask now st s in IsValid r.1 × InWindows r.2
  unfolding process
  process-keeps polls ask now st s h v =
      after_add-keeps now st (add_all ask 0 (events_of_polls polls) s)
        (add_all-IsValid ask 0 (events_of_polls polls) s h v)
