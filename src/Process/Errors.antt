-- ===== src/Process/Errors.antt =====
-- How a round fails, and what is left then.
use jbm.Prelude.{
  ℕ, suc, ◌+◌, ◌≡◌, ◌<◌, ◌⊎◌, refl, List, [], ◌∷◌, ◌++◌, Option, Result, ok, err, Text, length,
  subst, i64_max, arith, Result-cases, inl, inr,
}
use jbm.Common.{BlockEvent}
use jbm.Stream.{EventStream, IsValid}
use jbm.Stream.Add.{Answers, Failure, error, add_bpf_event}
use jbm.Provider.{JvmStackTraceProvider}
use jbm.Process.{Poll, events_of_polls, add_all, after_fill, after_add, fill, process}
use jbm.Process.Laws.{add_all-IsValid, sweep-returns}

-- Adding the records fails at `event`: those of `done` are added, `event` changes nothing, and those of
-- `left` are dropped.
pub record AddFails (ask : ℕ → Answers) (i : ℕ) (events : List BlockEvent) (s s' : EventStream)
    (failure : Failure) (done : List BlockEvent) : Type 0 where
  pub event : BlockEvent
  pub left : List BlockEvent
  pub split : events ≡ done ++ (event ∷ left)
  pub added : add_all ask i done s ≡ (s', ok tt)
  pub failing : add_bpf_event (ask (i + length done)) event s' ≡ err failure

pub AddFails-cons :
    (ask : ℕ → Answers) (i : ℕ) (event : BlockEvent) (events done : List BlockEvent)
    (s one s' : EventStream) (failure : Failure) {w : _}
    → add_bpf_event (ask i) event s ≡ ok (one, w)
    → AddFails ask (suc i) events one s' failure done
    → AddFails ask i (event ∷ events) s s' failure (event ∷ done)
unfolding add_all
AddFails-cons ask i event events done s one s' failure e h = record {
  event = h.event;
  left = h.left;
  split = cc (h.split);
  added = ground (arith, e, h.added);
  failing =
      let same : i + length (event ∷ done) ≡ suc i + length done = omega arith in rw same h.failing;
}

pub AddFails-nil :
    (ask : ℕ → Answers) (i : ℕ) (event : BlockEvent) (events : List BlockEvent) (s : EventStream)
    (failure : Failure)
    → add_bpf_event (ask i) event s ≡ err failure
    → AddFails ask i (event ∷ events) s s failure []
unfolding add_all
AddFails-nil ask i event events s failure e = record {
  event = event;
  left = events;
  split = refl;
  added = refl;
  failing = let here : i + 0 ≡ i = omega arith in rw here e;
}

pub add_all-AddFails :
    (ask : ℕ → Answers) (i : ℕ) (events : List BlockEvent) (s s' : EventStream) (failure : Failure)
    → add_all ask i events s ≡ (s', err failure)
    → (done : List BlockEvent) × AddFails ask i events s s' failure done
unfolding add_all
add_all-AddFails ask i [] s s' failure e = absurd (ground (arith, e))
add_all-AddFails ask i (event ∷ events) s s' failure e =
    elim (Result-cases (add_bpf_event (ask i) event s)) [
      | inl ((one, w), f) ↦
          let (done, fails) =
            add_all-AddFails ask (suc i) events one s' failure (ground (arith, e, f)) in
          (event ∷ done, AddFails-cons ask i event events done s one s' failure f fails)
      | inr (t, f) ↦
          let same : s ≡ s' = ground (arith, e, f) in
          (
            [],
            subst (λ u. AddFails ask i (event ∷ events) s u failure []) same
                (AddFails-nil ask i event events s failure (ground (arith, e, f))),
          )
    ]

module _ (P : JvmStackTraceProvider) where
  -- The provider fails: nothing is swept, and the events that it gave before stay queued.
  pub record FillFails (st st' : P.State) (one s' : EventStream) (failure : Failure) : Type 0 where
    pub text : Text
    pub failing : P.fill_queue st one.jvm_events ≡ (st', s'.jvm_events, err text)
    pub bpf_events : s'.bpf_events ≡ one.bpf_events
    pub reported : failure ≡ error text

  after_fill-FillFails :
      (now : ℕ) (st st' : P.State) (one s' : EventStream) (failure : Failure)
      → IsValid one
      → after_add P now st (one, ok tt) ≡ (st', s', err failure)
      → FillFails st st' one s' failure
  unfolding after_add after_fill fill
  after_fill-FillFails now st st' one s' failure v e =
      let given = P.fill_queue st one.jvm_events in
      elim (Result-cases given.2) [
        | inr (t, f) ↦ record {
          text = t;
          failing = ground (arith, e, f);
          bpf_events = ground (arith, e, f);
          reported = ground (arith, e, f);
        }
        | inl (u, f) ↦
            let (s'', pairs, swept, valid, windows) =
              sweep-returns now (record one { jvm_events = given.1 })
                (record {
                  bpf_valid = v.bpf_valid;
                  jvm_valid = P.fill_queue-valid st one.jvm_events v.jvm_valid;
                }) in
            absurd (ground (arith, e, f, swept))
      ]

  -- A round of a valid stream fails in two ways only, with the wall clock below 2 ^ 63. Either the adding of
  -- a record fails: then the records in front of it are queued, it and those behind it are dropped, and
  -- the provider is not asked. Or all records are queued and the provider fails; its error is the round's.
  -- The sweep never fails.
  pub process-failure :
      (polls : List (Option (Result Poll Text))) (ask : ℕ → Answers) (now : ℕ) (st st' : P.State)
      (s s' : EventStream) (failure : Failure)
      → ((n : ℕ) → (ask n).now < i64_max)
      → IsValid s
      → process P polls ask now st s ≡ (st', s', err failure)
      → let events = events_of_polls polls in
        ((st' ≡ st) × ((done : List BlockEvent) × AddFails ask 0 events s s' failure done))
        ⊎ ((one : EventStream) × (add_all ask 0 events s ≡ (one, ok tt))
            × FillFails st st' one s' failure)
  unfolding process after_add
  process-failure polls ask now st st' s s' failure h v e =
      let events = events_of_polls polls in
      let v' = add_all-IsValid ask 0 events s h v in
      elim (Result-cases (add_all ask 0 events s).1) [
        | inr (t, f) ↦
            let ended : add_all ask 0 events s ≡ (s', err failure) = ground (arith, e, f) in
            inl (ground (arith, e, f), add_all-AddFails ask 0 events s s' failure ended)
        | inl (u, f) ↦
            let one = (add_all ask 0 events s).0 in
            let all : add_all ask 0 events s ≡ (one, ok tt) = ground (arith, f) in
            inr (one, all, after_fill-FillFails now st st' one s' failure v' (rw all at e))
      ]
