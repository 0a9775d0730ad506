-- ===== src/Process/Kernel3x.antt =====
-- `Jbm::process` as built for kernel 3.x (`cfg(kernel3x)` in jbm/src/lib.rs), where the control program
-- signals the threads as well. `kill` is `libc::kill`: its result for a pid and a
-- signal, each an i32 as its bit pattern.
use jbm.Prelude.{
  ℕ, Bool, suc, ◌≡◌, refl, ap, List, [], ◌∷◌, ◌++◌, Option, Result, ok, err, Text, ◌==◌,
  if◌then◌else◌, map, ◌∙◌, Bool-cases, Result-cases, inl, inr,
}
use jbm.Common.{BlockEvent}
use jbm.Events.{Pair}
use jbm.Ebpf.Probe.{sigprof}
use jbm.Stream.{EventStream}
use jbm.Stream.Add.{Answers, Failure, add_bpf_event}
use jbm.Provider.{JvmStackTraceProvider}
use jbm.Process.{Poll, events_of_polls, add_all, after_add, process}
use jbm.Process.Errors.{AddFails, AddFails-cons, AddFails-nil}

-- A signal that is sent, with the pid; and "Failed to signal TID {}: error = {}".
pub data Output : Type 0 where
  signal : (pid signal : ℕ) → Output
  failed_to_signal : (pid error : ℕ) → Output

-- The pids and signals that are sent, in their order.
abbrev pub signals : List Output → List (ℕ × ℕ)
signals [] = []
signals (signal pid sig ∷ outputs) = (pid, sig) ∷ signals outputs
signals (failed_to_signal pid error ∷ outputs) = signals outputs

-- The failures that are printed.
abbrev pub failures : List Output → List (ℕ × ℕ)
failures [] = []
failures (signal pid sig ∷ outputs) = failures outputs
failures (failed_to_signal pid error ∷ outputs) = (pid, error) ∷ failures outputs

module _ (kill : ℕ → ℕ → ℕ) where
  unfoldable pub send_signal : ℕ → List Output
  send_signal pid =
      let error = kill pid sigprof in
      signal pid sigprof ∷ (if error == 0 then [] else failed_to_signal pid error ∷ [])

  abbrev after_signal :
      ℕ
      → (EventStream × Result (Unit {0}) Failure) × List Output
      → (EventStream × Result (Unit {0}) Failure) × List Output
  after_signal pid (r, sent) = (r, send_signal pid ++ sent)

  -- The loop of `process`, with the outputs. Signals that were sent before a `?` leaves it stay sent.
  unfoldable pub add_and_signal :
      (ℕ → Answers)
      → ℕ
      → List BlockEvent
      → EventStream
      → (EventStream × Result (Unit {0}) Failure) × List Output
  add_and_signal ask i [] s = ((s, ok tt), [])
  add_and_signal ask i (event ∷ events) s = elim (add_bpf_event (ask i) event s) [
    | ok (s', warned) ↦ after_signal event.pid (add_and_signal ask (suc i) events s')
    | err failure ↦ ((s, err failure), [])
  ]

  module _ (P : JvmStackTraceProvider) where
    abbrev sweep_signalled :
        ℕ
        → P.State
        → (EventStream × Result (Unit {0}) Failure) × List Output
        → (P.State × EventStream × Result (List Pair) Failure) × List Output
    sweep_signalled now st (r, sent) = (after_add P now st r, sent)

    unfoldable pub process_3x :
        List (Option (Result Poll Text))
        → (ℕ → Answers)
        → ℕ
        → P.State
        → EventStream
        → (P.State × EventStream × Result (List Pair) Failure) × List Output
    process_3x polls ask now st s =
        sweep_signalled now st (add_and_signal ask 0 (events_of_polls polls) s)

  -- The threads to which `kill` cannot send SIGPROF, with what it gives.
  abbrev pub unreached : List BlockEvent → List (ℕ × ℕ)
  unreached [] = []
  unreached (event ∷ events) =
      if kill event.pid 27 == 0
      then unreached events
      else (event.pid, kill event.pid 27) ∷ unreached events

  add_and_signal-add_all :
      (ask : ℕ → Answers) (i : ℕ) (events : List BlockEvent) (s : EventStream)
      → (add_and_signal ask i events s).0 ≡ add_all ask i events s
  unfolding add_and_signal add_all
  add_and_signal-add_all ask i [] s = refl
  add_and_signal-add_all ask i (event ∷ events) s =
      elim (Result-cases (add_bpf_event (ask i) event s)) [
        | inl ((one, w), f) ↦
            rw (f, add_and_signal, add_all) (add_and_signal-add_all ask (suc i) events one)
        | inr (t, f) ↦ rw (f, add_and_signal, add_all) refl
      ]

  -- The records that were added.
  abbrev pub Added :
      (ℕ → Answers)
      → ℕ
      → List BlockEvent
      → EventStream
      → EventStream × Result (Unit {0}) Failure
      → List BlockEvent
      → Type 0
  Added ask i events s (s', ok _) added = added ≡ events
  Added ask i events s (s', err failure) added = AddFails ask i events s s' failure added

  Added-cons :
      (ask : ℕ → Answers) (i : ℕ) (event : BlockEvent) (events added : List BlockEvent)
      (s one : EventStream) (r : EventStream × Result (Unit {0}) Failure) {w : Bool}
      → add_bpf_event (ask i) event s ≡ ok (one, w)
      → Added ask (suc i) events one r added
      → Added ask i (event ∷ events) s r (event ∷ added)
  Added-cons ask i event events added s one (s', ok _) f h = ap (λ l. event ∷ l) h
  Added-cons ask i event events added s one (s', err failure) f fails =
      AddFails-cons ask i event events added s one s' failure f fails

  signals-send_signal :
      (pid : ℕ) (outputs : List Output)
      → signals (send_signal pid ++ outputs) ≡ (pid, 27) ∷ signals outputs
  unfolding send_signal
  signals-send_signal pid outputs = elim (Bool-cases (kill pid 27 == 0)) [
    | inl e ↦ rw e refl
    | inr e ↦ rw e refl
  ]

  failures-send_signal :
      (event : BlockEvent) (added : List BlockEvent) (outputs : List Output)
      → failures outputs ≡ unreached added
      → failures (send_signal event.pid ++ outputs) ≡ unreached (event ∷ added)
  unfolding send_signal
  failures-send_signal event added outputs h = elim (Bool-cases (kill event.pid 27 == 0)) [
    | inl e ↦ rw e h
    | inr e ↦ rw e (ap (λ l. (event.pid, kill event.pid 27) ∷ l) h)
  ]

  add_and_signal-signals :
      (ask : ℕ → Answers) (i : ℕ) (events : List BlockEvent) (s : EventStream)
      → (added : List BlockEvent) × Added ask i events s (add_all ask i events s) added
        × (signals (add_and_signal ask i events s).1 ≡ map (λ event. (event.pid, 27)) added)
        × (failures (add_and_signal ask i events s).1 ≡ unreached added)
  unfolding add_and_signal add_all
  add_and_signal-signals ask i [] s = ([], refl, refl, refl)
  add_and_signal-signals ask i (event ∷ events) s =
      elim (Result-cases (add_bpf_event (ask i) event s)) [
        | inl ((one, w), f) ↦
            let (added, which, same, failed) = add_and_signal-signals ask (suc i) events one in
            let later = (add_and_signal ask (suc i) events one).1 in
            (
              event ∷ added,
              rw (f, add_all)
                  (Added-cons ask i event events added s one (add_all ask (suc i) events one) f
                    which),
              rw (f, add_and_signal)
                  (signals-send_signal event.pid later ∙ ap (λ l. (event.pid, 27) ∷ l) same),
              rw (f, add_and_signal) (failures-send_signal event added later failed),
            )
        | inr (t, f) ↦ (
          [],
          rw (f, add_all) (AddFails-nil ask i event events s t f),
          rw (f, add_and_signal) refl,
          rw (f, add_and_signal) refl,
        )
      ]

  module _ (P : JvmStackTraceProvider) where
    -- The build for kernel 3.x changes nothing but the signals: a round has the same outcome, provider and
    -- stream, and the signals that it sends are signal 27, SIGPROF, to the `pid` of each record that it adds, in
    -- the order of the records. If adding a record fails, the records in front of it are those that were
    -- added. What it prints are the threads among them for which `kill` gives an error, with the error.
    pub process_3x-signals :
        (polls : List (Option (Result Poll Text))) (ask : ℕ → Answers) (now : ℕ) (st : P.State)
        (s : EventStream)
        → let events = events_of_polls polls in
          let (r, sent) = process_3x P polls ask now st s in
          (r ≡ process P polls ask now st s)
          × ((added : List BlockEvent) × Added ask 0 events s (add_all ask 0 events s) added
              × (signals sent ≡ map (λ event. (event.pid, 27)) added)
              × (failures sent ≡ unreached added))
    unfolding process_3x process
    process_3x-signals polls ask now st s =
        let events = events_of_polls polls in
        (
          ap (after_add P now st) (add_and_signal-add_all ask 0 events s),
          add_and_signal-signals ask 0 events s,
        )
