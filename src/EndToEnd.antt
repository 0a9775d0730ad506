-- ===== src/EndToEnd.antt =====
-- The whole path of a block: the eBPF program (jbm-ebpf/src/main.rs), the ring buffers, and the loop of
-- `main` (jbm/src/main.rs).
use mathlib.Core.List.{map-append, append-nil}
use jbm.Prelude.{
  ℕ, ◌≡◌, refl, ap, sym, ◌∙◌, List, [], ◌∷◌, ◌++◌, map, take, Option, none, some, Result, ok, err,
  Text, All, subst,
}
use jbm.Common.{Config, BlockEvent}
use jbm.Wire.{encode, decode, IsWellSized, decode-encode}
use jbm.HashMap.{get}
use jbm.Program.Laws.{new-IsValid}
use jbm.Stream.{new, IsValid}
use jbm.Ebpf.StartTimes.{StartTimes}
use jbm.Ebpf.Probe.{Switch, Effect, output, send_signal, Kernel}
use jbm.Ebpf.Probe.History.{run}
use jbm.Ebpf.Probe.Intervals.{AllNoted, all_reports, run-all_reports}
use jbm.Ebpf.Probe.Sizes.{IsSized, Fits, AreSized, run-AreSized}
use jbm.Provider.{JvmStackTraceProvider}
use jbm.Process.{Poll, events_of_poll, events_of_polls}
use jbm.Process.Accounts.{record_of, record_in, records_of}
use jbm.Monitor.{Tick, running, Monitor, main_loop}
use jbm.Monitor.Laws.{InTime}
use jbm.Monitor.Accounts.{events_of_ticks, seen_of, main_loop-accounts}

-- The records among the effects of the eBPF program.
abbrev pub records : List Effect → List BlockEvent
records [] = []
records (output e ∷ es) = e ∷ records es
records (send_signal pid sig ∷ es) = records es

-- The bytes that the ring buffers give.
abbrev pub raw_of_poll : Option (Result Poll Text) → List (List ℕ)
raw_of_poll none = []
raw_of_poll (some (err e)) = []
raw_of_poll (some (ok poll)) = take poll.read poll.buffers

abbrev pub raw_of_polls : List (Option (Result Poll Text)) → List (List ℕ)
raw_of_polls [] = []
raw_of_polls (p ∷ ps) = raw_of_poll p ++ raw_of_polls ps

abbrev pub raw_of_ticks : List Tick → List (List ℕ)
raw_of_ticks [] = []
raw_of_ticks (tick ∷ ticks) = raw_of_polls tick.polls ++ raw_of_ticks ticks

decoded_poll : (p : Option (Result Poll Text)) → events_of_poll p ≡ map decode (raw_of_poll p)
decoded_poll none = refl
decoded_poll (some (err e)) = refl
decoded_poll (some (ok poll)) = refl

decoded_polls :
    (ps : List (Option (Result Poll Text))) → events_of_polls ps ≡ map decode (raw_of_polls ps)
unfolding events_of_polls
decoded_polls [] = refl
decoded_polls (p ∷ ps) =
    rw (map-append decode (raw_of_poll p) (raw_of_polls ps), decoded_poll p, decoded_polls ps) refl

decoded_ticks : (ticks : List Tick) → events_of_ticks ticks ≡ map decode (raw_of_ticks ticks)
decoded_ticks [] = refl
decoded_ticks (tick ∷ ticks) =
    rw
      (
        map-append decode (raw_of_polls tick.polls) (raw_of_ticks ticks),
        decoded_polls tick.polls,
        decoded_ticks ticks,
      )
      refl

decoded :
    (events : List BlockEvent) → All IsWellSized events → map decode (map encode events) ≡ events
decoded [] h = refl
decoded (e ∷ events) h =
    let one : decode (encode e) ≡ e = rw (← append-nil (encode e)) (decode-encode e [] h.0) in
    rw (one, decoded events h.1) refl

records-IsWellSized : (es : List Effect) → All Fits es → All IsWellSized (records es)
records-IsWellSized [] h = tt
records-IsWellSized (output e ∷ es) h = (h.0, records-IsWellSized es h.1)
records-IsWellSized (send_signal pid sig ∷ es) h = records-IsWellSized es h.1

-- The records of the program fit the layout that it shares with the control program: if the answers of
-- the kernel are words, a name has 16 bytes, and the start times and records at the beginning fit as well,
-- then after any calls each field of each record has its width, and the control program decodes the bytes
-- of the records to the same records.
pub records-decode :
    (S : StartTimes) (config : Config) (kernel : Kernel S) (switches : List Switch)
    → All IsSized switches
    → AreSized S config kernel
    → let written = records (run S config kernel switches).effects in
      All IsWellSized written × (map decode (map encode written) ≡ written)
records-decode S config kernel switches h a =
    let fits = run-AreSized S config kernel switches h a in
    let sized = records-IsWellSized (run S config kernel switches).effects fits.effects in
    (sized, decoded (records (run S config kernel switches).effects) sized)

-- A monitor that has just been made has seen nothing.
seen_of-new :
    {P : JvmStackTraceProvider} (k : ℕ) (m : Monitor P)
    → m.stream ≡ new
    → m.printed ≡ []
    → seen_of k m ≡ []
unfolding new get
seen_of-new k m fresh unprinted = rw (fresh, unprinted) refl

-- Everything works together, thread by thread. The eBPF program starts with an empty START_TIMES and
-- has run on the switches; in each call it could read the task that goes off the CPU and could write its
-- start time. The rounds of the loop, which still runs and started with a new stream, got the bytes of
-- `events`, whose fields have their widths, and these are for the thread the records of the program in
-- their order. Then the events of the thread that were printed, in the order of the output, and those that
-- wait, make up the blocks of the thread in the history of the switches, in their order: one event for
-- each block, with its thread, process and time.
pub printed_blocks :
    (S : StartTimes) (config : Config) (kernel : Kernel S) (switches : List Switch)
    (P : JvmStackTraceProvider) (m : Monitor P) (ticks : List Tick) (events : List BlockEvent)
    (k : ℕ)
    → ((i : ℕ) → S.get i kernel.start_times ≡ none)
    → kernel.effects ≡ []
    → AllNoted S config kernel switches
    → m.stream ≡ new
    → m.printed ≡ []
    → All InTime ticks
    → (main_loop P ticks m).1 ≡ running
    → raw_of_ticks ticks ≡ map encode events
    → All IsWellSized events
    → records_of k events ≡ records_of k (records (run S config kernel switches).effects)
    → map record_of (seen_of k (main_loop P ticks m).0)
      ≡ map record_in (records_of k (records (all_reports config switches)))
printed_blocks S config kernel switches P m ticks events k empty no_effects noted fresh unprinted
      intime runs raw sized delivered =
    let valid : IsValid m.stream = subst IsValid (sym fresh) new-IsValid in
    let (added, to, same) = main_loop-accounts P k ticks m intime valid runs in
    let brought : events_of_ticks ticks ≡ events =
      decoded_ticks ticks ∙ (ap (map decode) raw ∙ decoded events sized) in
    let reports = run-all_reports S config kernel switches empty no_effects noted in
    ap (map record_of) (to ∙ ap (λ l. l ++ added) (seen_of-new k m fresh unprinted))
    ∙ (same
        ∙ (ap (λ es. map record_in (records_of k es)) brought
            ∙ (ap (map record_in) delivered
                ∙ ap (λ es. map record_in (records_of k (records es))) reports)))
