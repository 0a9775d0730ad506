-- ===== src/Stream/Add.antt =====
-- `EventStream::add_bpf_event` (jbm/src/lib.rs). What the code asks of others in one call is the record
-- `Answers`; an error is the text of an `anyhow::Error`.
pub mod Laws
use jbm.Prelude.{
  ℕ, suc, ◌+◌, ◌%◌, Bool, true, false, List, [], ◌∷◌, ◌++◌, map, Option, none, some, Result, ok,
  err, ◌>>=◌, ok_or, Text, codes, u32, leb, ◌==◌, if◌then◌else◌, u64, ◌&&◌,
}
use jbm.Common.{BlockEvent, stack_storage_size}
use jbm.HashMap.{push_back}
use jbm.Events.{BpfEvent}
use jbm.Stream.{EventStream}
use jbm.Stream.Clock.{compute_timestamp}

abbrev pub storage_check_count : ℕ
storage_check_count = 100

abbrev pub unknown_symbol : Text
unknown_symbol = codes "[unknown symbol name]"

abbrev pub name_or_unknown : Option Text → Text
name_or_unknown none = unknown_symbol
name_or_unknown (some name) = name

-- The answers of the maps, of the symbol tables, and of the clocks.
pub record Answers : Type 0 where
  -- STACK_TRACES: the addresses of a stack, by its id.
  pub get_stack : ℕ → Result (List ℕ) Text
  -- `kernel_stack.resolve(&self.ksyms)`: the name of a kernel address.
  pub kernel_symbol : ℕ → Option Text
  -- `Resolver::resolve`, for a process and its stack.
  pub resolve_user : ℕ → List ℕ → Result (List (ℕ × Option Text)) Text
  -- `to_string_lossy`
  pub lossy : List ℕ → Text
  pub now_ktime : ℕ
  pub now : ℕ
  -- `stack_traces.iter().count()`
  pub stack_count : ℕ

abbrev prepend : ℕ → Option (List ℕ) → Option (List ℕ)
prepend b none = none
prepend b (some bs) = some (b ∷ bs)

-- `CStr::from_bytes_until_nul`: the bytes before the first zero, if there is one.
abbrev pub until_nul : List ℕ → Option (List ℕ)
until_nul [] = none
until_nul (b ∷ bs) = let rest = until_nul bs in if b == 0 then some [] else prepend b rest

-- `?` returns an error; a clock may panic.
pub data Failure : Type 0 where
  error : Text → Failure
  panics : Failure

abbrev or_error {ℓ} : {A : Type ℓ} → Result A Text → Result A Failure
or_error (ok a) = ok a
or_error (err e) = err (error e)

-- The frames of the kernel stack, and then those of the user stack.
abbrev pub frames_of : Answers → List ℕ → List (ℕ × Option Text) → List (ℕ × Text)
frames_of a kernel_stack user_frames =
    map (λ ip. (ip, name_or_unknown (a.kernel_symbol ip))) kernel_stack
    ++ map (λ f. (f.0, name_or_unknown f.1)) user_frames

-- The event that is stored.
unfoldable pub bpf_event_of : Answers → BlockEvent → Result BpfEvent Failure
bpf_event_of a event = do
  kernel_stack ← or_error (a.get_stack (u32 event.kernel_stack_id))
  user_stack ← or_error (a.get_stack (u32 event.user_stack_id))
  user_frames ← or_error (a.resolve_user event.tgid user_stack)
  comm ← ok_or (until_nul event.name) (error (codes "no nul byte"))
  timestamp ← ok_or (compute_timestamp a.now_ktime a.now event.t_end) panics
  ok (record {
    timestamp = timestamp;
    pid = event.tgid;
    tid = event.pid;
    comm = a.lossy comm;
    duration = event.offtime;
    stacktrace = frames_of a kernel_stack user_frames;
  })

-- Whether the warning about a full storage is logged.
abbrev pub warns : ℕ → ℕ → Bool
warns event_count stack_count =
    (event_count % storage_check_count == 0) && leb stack_storage_size stack_count

abbrev pub stored : Answers → BlockEvent → EventStream → BpfEvent → EventStream × Bool
stored a event s bpf_event =
    let event_count = u64 (s.event_count + 1) in
    (
      record s {
        bpf_events = push_back event.pid bpf_event s.bpf_events;
        event_count = event_count;
      },
      warns event_count a.stack_count,
    )

-- The stream, and whether it warns. On a failure the stream is as it was.
unfoldable pub add_bpf_event :
    Answers → BlockEvent → EventStream → Result (EventStream × Bool) Failure
add_bpf_event a event s = do bpf_event ← bpf_event_of a event; ok (stored a event s bpf_event)
