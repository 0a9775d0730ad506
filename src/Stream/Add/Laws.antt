-- ===== src/Stream/Add/Laws.antt =====
-- What adding a BPF event does to the stream.
use jbm.Prelude.{
  ℕ, ◌≡◌, ◌<◌, ◌≤◌, [], ◌∷◌, ◌++◌, some, ok, arith, i64_max, >>=-eq-ok, ◌==◌, if◌then◌else◌, Bool,
  subst,
}
use jbm.Common.{BlockEvent}
use jbm.HashMap.{queue, push_back, queue-push_back}
use jbm.HashMap.Entries.{push_back-IsQueueMap}
use jbm.Events.{BpfEvent}
use jbm.Stream.{EventStream, IsValid, BpfFits}
use jbm.Stream.Clock.{compute_timestamp, compute_timestamp-le}
use jbm.Stream.Add.{Answers, bpf_event_of, stored, add_bpf_event}

bpf_event_of-ids :
    (a : Answers) (event : BlockEvent) {b : BpfEvent}
    → bpf_event_of a event ≡ ok b
    → (b.tid ≡ event.pid)
      × (b.pid ≡ event.tgid)
      × (b.duration ≡ event.offtime)
      × (compute_timestamp a.now_ktime a.now event.t_end ≡ some b.timestamp)
unfolding bpf_event_of
bpf_event_of-ids a event e = ground arith

-- An event that is added goes to the end of the queue of its thread, which is the `pid` of the record;
-- no other queue changes. Its process, thread, duration and time are those of the record.
pub add_bpf_event-queue :
    (a : Answers) (event : BlockEvent) (s s' : EventStream) {w : Bool} (j : ℕ)
    → add_bpf_event a event s ≡ ok (s', w)
    → (b : BpfEvent) × (queue j s'.bpf_events
        ≡ (if event.pid == j then queue j s.bpf_events ++ (b ∷ []) else queue j s.bpf_events))
      × (s'.jvm_events ≡ s.jvm_events)
      × (b.tid ≡ event.pid)
      × (b.pid ≡ event.tgid)
      × (b.duration ≡ event.offtime)
      × (compute_timestamp a.now_ktime a.now event.t_end ≡ some b.timestamp)
unfolding add_bpf_event
add_bpf_event-queue a event s s' j e =
    let (b, put, made) = >>=-eq-ok (λ b. ok (stored a event s b)) (bpf_event_of a event) e in
    let ids = bpf_event_of-ids a event made in
    (
      b,
      ground (arith, put, queue-push_back j event.pid b s.bpf_events),
      ground (arith, put),
      ids.0,
      ids.1,
      ids.2,
      ids.3,
    )

-- The event that is queued is not later than the wall clock.
pub add_bpf_event-at :
    (a : Answers) (event : BlockEvent) (s s' : EventStream) {w : Bool}
    → add_bpf_event a event s ≡ ok (s', w)
    → (b : BpfEvent) × (s'.bpf_events ≡ push_back event.pid b s.bpf_events) × (b.timestamp ≤ a.now)
unfolding add_bpf_event
add_bpf_event-at a event s s' e =
    let (b, put, made) = >>=-eq-ok (λ b. ok (stored a event s b)) (bpf_event_of a event) e in
    let ids = bpf_event_of-ids a event made in
    (b, ground (arith, put), compute_timestamp-le a.now_ktime a.now event.t_end ids.3)

-- Adding an event keeps a stream valid, if the wall clock is below 2 ^ 63.
pub add_bpf_event-IsValid :
    (a : Answers) (event : BlockEvent) (s s' : EventStream) {w : Bool}
    → a.now < i64_max
    → add_bpf_event a event s ≡ ok (s', w)
    → IsValid s
    → IsValid s'
unfolding add_bpf_event
add_bpf_event-IsValid a event s s' h e v =
    let (b, put, made) = >>=-eq-ok (λ b. ok (stored a event s b)) (bpf_event_of a event) e in
    let ids = bpf_event_of-ids a event made in
    let early = compute_timestamp-le a.now_ktime a.now event.t_end ids.3 in
    let same : (stored a event s b).0 ≡ s' = ground (arith, put) in
    subst IsValid same (record {
      bpf_valid = push_back-IsQueueMap BpfFits event.pid b (ids.0, omega arith) v.bpf_valid;
      jvm_valid = v.jvm_valid;
    })
