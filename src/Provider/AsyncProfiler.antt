-- ===== src/Provider/AsyncProfiler.antt =====
-- `AsyncProfilerStackTraceProvider::fill_queue` (jbm/src/async_profiler.rs). `parse` is
-- `serde_json::from_str::<JvmEvent>`. The reads of one call end at the end of the file or at an error.
use jbm.Provider.{JvmStackTraceProvider}
use mathlib.Core.List.{append_assoc, append-nil}
use jbm.Prelude.{
  ℕ, ◌≡◌, ◌<◌, refl, sym, ◌∙◌, List, [], ◌∷◌, ◌++◌, Option, none, some, Result, ok, err, Text,
  arith, i64_max, All, subst, ◌==◌, if◌then◌else◌, Option-cases, inl, inr,
}
use jbm.HashMap.{HashMap, queue, push_back, queue-push_back}
use jbm.HashMap.Entries.{IsQueueMap, push_back-IsQueueMap}
use jbm.Events.{JvmEvent}
use jbm.Stream.{JvmFits}

module _ (parse : Text → Option JvmEvent) where
  abbrev pub accept_line : Text → HashMap (List JvmEvent) → HashMap (List JvmEvent)
  accept_line line queues = elim (parse line) [
    | some jvm_event ↦ push_back jvm_event.tid jvm_event queues
    | none ↦ queues
  ]

  -- A line that does not parse is skipped; an error of the reader ends the call.
  unfoldable pub fill_queue :
      List (Result Text Text)
      → HashMap (List JvmEvent)
      → HashMap (List JvmEvent) × Result (Unit {0}) Text
  fill_queue [] queues = (queues, ok tt)
  fill_queue (err e ∷ reads) queues = (queues, err e)
  fill_queue (ok line ∷ reads) queues = fill_queue reads (accept_line line queues)

  abbrev event_of : ℕ → Option JvmEvent → List JvmEvent
  event_of k none = []
  event_of k (some j) = if j.tid == k then j ∷ [] else []

  -- The events of thread `k` among the lines before the first error.
  abbrev pub events_of : ℕ → List (Result Text Text) → List JvmEvent
  events_of k [] = []
  events_of k (err e ∷ reads) = []
  events_of k (ok line ∷ reads) = event_of k (parse line) ++ events_of k reads

  queue-accept_line :
      (k : ℕ) (line : Text) (queues : HashMap (List JvmEvent))
      → queue k (accept_line line queues) ≡ queue k queues ++ event_of k (parse line)
  queue-accept_line k line queues = elim (Option-cases (parse line)) [
    | inl e ↦ rw (e, accept_line) (sym (append-nil (queue k queues)))
    | inr (j, e) ↦
        rw (e, accept_line)
          (ground (arith, queue-push_back k j.tid j queues, append-nil (queue k queues)))
  ]

  -- A call appends to the queue of each thread the events of that thread, in the order of their lines,
  -- up to the first error of the reader; lines that do not parse add nothing.
  pub queue-fill_queue :
      (k : ℕ) (reads : List (Result Text Text)) (queues : HashMap (List JvmEvent))
      → queue k (fill_queue reads queues).0 ≡ queue k queues ++ events_of k reads
  unfolding fill_queue
  queue-fill_queue k [] queues = sym (append-nil (queue k queues))
  queue-fill_queue k (err e ∷ reads) queues = sym (append-nil (queue k queues))
  queue-fill_queue k (ok line ∷ reads) queues =
      queue-fill_queue k reads (accept_line line queues)
      ∙ rw (queue-accept_line k line queues)
          (append_assoc (queue k queues) (event_of k (parse line)) (events_of k reads))

  -- A line that is a trace has a time below 2 ^ 63.
  abbrev pub EventFits : Option JvmEvent → Type 0
  EventFits none = Unit {0}
  EventFits (some j) = j.timestamp < i64_max

  abbrev pub ReadFits : Result Text Text → Type 0
  ReadFits (err e) = Unit {0}
  ReadFits (ok line) = EventFits (parse line)

  abbrev pub ReadsFit : List (Result Text Text) → Type 0
  ReadsFit = All ReadFits

  accept_line-valid :
      (line : Text) {queues : HashMap (List JvmEvent)}
      → EventFits (parse line)
      → IsQueueMap JvmFits queues
      → IsQueueMap JvmFits (accept_line line queues)
  accept_line-valid line {queues} fits v = elim (Option-cases (parse line)) [
    | inl e ↦ rw (e, accept_line) v
    | inr (j, e) ↦
        rw (e, accept_line) (push_back-IsQueueMap JvmFits j.tid j (refl, subst EventFits e fits) v)
  ]

  pub fill_queue-valid :
      (reads : List (Result Text Text)) {queues : HashMap (List JvmEvent)}
      → ReadsFit reads
      → IsQueueMap JvmFits queues
      → IsQueueMap JvmFits (fill_queue reads queues).0
  unfolding fill_queue
  fill_queue-valid [] h v = v
  fill_queue-valid (err e ∷ reads) h v = v
  fill_queue-valid (ok line ∷ reads) h v = fill_queue-valid reads h.1 (accept_line-valid line h.0 v)

-- The reads of the future calls: each call takes the first of them.
abbrev pub reads_of : List (List (Result Text Text)) → List (Result Text Text)
reads_of [] = []
reads_of (reads ∷ later) = reads

abbrev pub later_of : List (List (Result Text Text)) → List (List (Result Text Text))
later_of [] = []
later_of (reads ∷ later) = later

module _ (parse : Text → Option JvmEvent) where
  -- The times of the traces that will be read are below 2 ^ 63.
  abbrev pub CallsFit : List (List (Result Text Text)) → Type 0
  CallsFit = All (ReadsFit parse)

  pub reads_of-fit :
      (calls : List (List (Result Text Text))) → CallsFit calls → ReadsFit parse (reads_of calls)
  reads_of-fit [] h = tt
  reads_of-fit (reads ∷ later) h = h.0

  pub later_of-fit :
      (calls : List (List (Result Text Text))) → CallsFit calls → CallsFit (later_of calls)
  later_of-fit [] h = tt
  later_of-fit (reads ∷ later) h = h.1

  -- This provider. Its files are those in which all the times are below 2 ^ 63; of the parser nothing is
  -- assumed.
  abbrev pub async_profiler : JvmStackTraceProvider
  async_profiler = record {
    State = (calls : List (List (Result Text Text))) × CallsFit calls;
    fill_queue = λ st queues.
        let (queues', r) = fill_queue parse (reads_of st.0) queues in
        ((later_of st.0, later_of-fit st.0 st.1), queues', r);
    fill_queue-valid =
        λ st queues v. fill_queue-valid parse (reads_of st.0) (reads_of-fit st.0 st.1) v;
  }
