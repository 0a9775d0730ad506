-- ===== src/Stream/Sweep/Crosses.antt =====
-- A sweep (jbm/src/lib.rs) of two threads whose blocks overlap.
use jbm.Prelude.{ℕ, ◌+◌, ◌<◌, ◌≢◌, [], ◌∷◌, none, some, i64_max}
use jbm.Events.{JvmEvent, BpfEvent}
use jbm.Stream.{EventStream}
use jbm.Stream.Sweep.{Swept}
use jbm.Matching.Find.{match_threshold}
use jbm.Matching.Drain.{Sweeping}

module _ (now t u : ℕ) (b1 b2 : BpfEvent) (j : JvmEvent) where
  -- Thread `t` has the trace `j` of its block, thread `u` none yet.
  abbrev pub overlapping : EventStream
  overlapping = record {
    bpf_events = (t, b1 ∷ []) ∷ ((u, b2 ∷ []) ∷ []);
    event_count = 2;
    jvm_events = (t, j ∷ []) ∷ [];
  }

  abbrev drained : Sweeping
  drained = record { jvm_queue = []; ret = (b2, some j) ∷ ((b1, none) ∷ []); trashed = [] }

  module _ (apart : t ≢ u) (after : b1.timestamp < b2.timestamp)
      (before : b2.timestamp < j.timestamp) (window : j.timestamp < b1.timestamp + match_threshold)
      (range : j.timestamp < i64_max) where
    abbrev first_swept : Swept
    first_swept = record {
      stream = record { bpf_events = (u, b2 ∷ []) ∷ []; event_count = 2; jvm_events = [] };
      ret = (b1, some j) ∷ [];
      trashed = [];
    }

    abbrev last_swept : Swept
    last_swept = record {
      stream = record { bpf_events = []; event_count = 2; jvm_events = [] };
      ret = drained.ret;
      trashed = [];
    }

    abbrev at_start : Swept
    at_start = record { stream = overlapping; ret = []; trashed = [] }
