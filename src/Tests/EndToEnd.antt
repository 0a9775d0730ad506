-- ===== src/Tests/EndToEnd.antt =====
-- A block of thread 7, from the switches to the queue of the loop (jbm-ebpf/src/main.rs, jbm/src).
use jbm.Prelude.{◌≡◌, refl, true, false, [], ◌∷◌, map, some, ok, arith, ap, sym}
use jbm.Wire.{encode, decode, le_bytes, of_le_bytes, word, comm, IsWellSized}
use jbm.HashMap.{get, insert, remove, store, push_back}
use jbm.Stream.{new}
use jbm.Stream.Add.{add_bpf_event, bpf_event_of}
use jbm.Stream.Clock.{compute_timestamp}
use jbm.Stream.Sweep.{sweep, sweep_all, sweep_tids, sweep_tid}
use jbm.Matching.Drain.{round, drain}
use jbm.Matching.Find.{find_matching_jvm_event}
use jbm.Process.{process, add_all, events_of_polls}
use jbm.Process.Accounts.{record_of, record_in, records_of}
use jbm.Ebpf.Probe.Intervals.{all_reports}
use jbm.Monitor.{Tick, running, Monitor, main_loop}
use jbm.Monitor.Accounts.{seen_of}
use jbm.EndToEnd.{records, printed_blocks}
use jbm.Tests.Ebpf.{
  small_map, config, boot, history, blocked_event, history-AllNoted, boot_empty, history_effects,
}
use jbm.Tests.Intake.{silent, answers}

abbrev delivery : Tick
delivery = record {
  has_done = false;
  pid_alive = true;
  polls = some (ok (record { buffers = encode blocked_event ∷ []; read = 1 })) ∷ [];
  ask = λ _. answers;
  now = 1700000000000;
}

abbrev begin : Monitor silent
begin = record { provider = 0; stream = new; printed = [] }

blocked_event-IsWellSized : IsWellSized blocked_event
blocked_event-IsWellSized = record {
  pid_word = omega arith;
  tgid_word = omega arith;
  user_word = omega arith;
  kernel_word = omega arith;
  name_bytes = refl;
  offtime_word = omega arith;
  start_word = omega arith;
  end_word = omega arith;
}

delivered : (main_loop silent (delivery ∷ []) begin).1 ≡ running
unfolding main_loop process add_all events_of_polls sweep sweep_all sweep_tids sweep_tid drain round
    find_matching_jvm_event get store insert remove push_back add_bpf_event bpf_event_of
    compute_timestamp new encode decode comm word le_bytes of_le_bytes
delivered = refl

printed_blocks_example :
    map record_of (seen_of 7 (main_loop silent (delivery ∷ []) begin).0)
    ≡ map record_in (records_of 7 (records (all_reports config history)))
printed_blocks_example =
    printed_blocks small_map config boot history silent begin (delivery ∷ []) (blocked_event ∷ []) 7
      boot_empty refl history-AllNoted refl refl ((λ _. omega arith), tt) delivered refl
      (blocked_event-IsWellSized, tt) (ap (λ es. records_of 7 (records es)) (sym history_effects))
