-- ===== src/Matching/Drain.antt =====
-- The `while let` loop of `EventStream::sweep` (jbm/src/lib.rs), which works through the BPF queue of
-- one thread. The vector `ret` is held newest first, so `ret.last_mut()` is the head.
pub mod Cases
pub mod Window
pub mod Accounts
pub mod Order
pub mod Settled
pub mod Nearest
pub mod Fresh
pub mod Fair
pub mod Apart
pub mod Waiting
pub mod Queues
pub mod Tids
use jbm.Prelude.{
  ℕ, Bool, ◌||◌, ◌&&◌, not, List, [], ◌∷◌, ◌++◌, Option, none, some, lt_i64, sub64, leb, is_empty,
  if◌then◌else◌,
}
use jbm.Events.{JvmEvent, BpfEvent, Pair}
use jbm.Matching.Find.{Search, find_matching_jvm_event}

-- EVENT_MATCH_GIVEUP_TIME, in milliseconds.
abbrev pub giveup_time : ℕ
giveup_time = 30000

-- What the loop changes besides the BPF queue.
pub record Sweeping : Type 0 where
  pub jvm_queue : List JvmEvent
  pub ret : List Pair
  pub trashed : List JvmEvent

-- Whether the loop goes round again, or breaks.
pub data Flow : Type 0 where
  next : Sweeping → Flow
  stop : Sweeping → Flow

-- The JVM event of the last pair comes after this BPF event, and nearer to it than to its own.
abbrev pub is_nearer : BpfEvent → BpfEvent → JvmEvent → Bool
is_nearer bpf_event last_bpf last_jvm =
    let ts_diff = sub64 last_jvm.timestamp bpf_event.timestamp in
    lt_i64 0 ts_diff && lt_i64 ts_diff (sub64 last_jvm.timestamp last_bpf.timestamp)

-- "Taking over last pair": the JVM event that the last pair gives up, and `ret` without it.
unfoldable pub take_over : BpfEvent → List Pair → Option (JvmEvent × List Pair)
take_over bpf_event [] = none
take_over bpf_event ((last_bpf, none) ∷ ret) = none
take_over bpf_event ((last_bpf, some last_jvm) ∷ ret) =
    if is_nearer bpf_event last_bpf last_jvm then some (last_jvm, (last_bpf, none) ∷ ret) else none

abbrev pub gives_up : ℕ → BpfEvent → Search → Bool
gives_up now bpf_event s =
    not (is_empty s.jvm_queue) || leb giveup_time (sub64 now bpf_event.timestamp)

after_search : ℕ → BpfEvent → Sweeping → Search → Flow
after_search now bpf_event s f =
    let s' = record s { jvm_queue = f.jvm_queue; trashed = s.trashed ++ f.trashed } in
    elim f.found [
      | some jvm_event ↦ next (record s' { ret = (bpf_event, some jvm_event) ∷ s.ret })
      | none ↦
          if gives_up now bpf_event f
          then next (record s' { ret = (bpf_event, none) ∷ s.ret })
          else stop s'
    ]

-- One round, with the BPF event at the front of its queue.
unfoldable pub round : ℕ → BpfEvent → Sweeping → Flow
unfolding take_over after_search
round now bpf_event s = elim (take_over bpf_event s.ret) [
  | some (last_jvm, ret) ↦ next (record s { ret = (bpf_event, some last_jvm) ∷ ret })
  | none ↦ after_search now bpf_event s (find_matching_jvm_event bpf_event.timestamp s.jvm_queue)
]

-- The loop, and the BPF queue that it leaves.
unfoldable pub drain : ℕ → List BpfEvent → Sweeping → List BpfEvent × Sweeping
drain now [] s = ([], s)
drain now (bpf_event ∷ rest) s = elim (round now bpf_event s) [
  | next s' ↦ drain now rest s'
  | stop s' ↦ (bpf_event ∷ rest, s')
]

abbrev pub after_round : Flow → Sweeping
after_round (next s) = s
after_round (stop s) = s
