-- ===== src/Matching/Find.antt =====
-- `EventStream::find_matching_jvm_event` (jbm/src/lib.rs). `trashed` holds the events that it hands
-- to `trash_jvm_event`, oldest first.
pub mod Laws
pub mod Sorted
use jbm.Prelude.{ℕ, List, [], ◌∷◌, Option, none, some, lt_i64, sub64, if◌then◌else◌}
use jbm.Events.{JvmEvent}

-- EVENT_MATCH_TIME_THRESHOLD_TIME, in milliseconds.
abbrev pub match_threshold : ℕ
match_threshold = 1000

-- What a search gives back, and the queue as it leaves it.
pub record Search : Type 0 where
  pub found : Option JvmEvent
  pub jvm_queue : List JvmEvent
  pub trashed : List JvmEvent

abbrev trash : JvmEvent → Search → Search
trash j s = record s { trashed = j ∷ s.trashed }

unfoldable pub find_matching_jvm_event : ℕ → List JvmEvent → Search
find_matching_jvm_event timestamp [] = record { found = none; jvm_queue = []; trashed = [] }
find_matching_jvm_event timestamp (jvm_event ∷ rest) =
    let ts_diff = sub64 jvm_event.timestamp timestamp in
    let later = find_matching_jvm_event timestamp rest in
    if lt_i64 ts_diff 0
    then trash jvm_event later
    else if lt_i64 ts_diff match_threshold
    then record { found = some jvm_event; jvm_queue = rest; trashed = [] }
    else record { found = none; jvm_queue = jvm_event ∷ rest; trashed = [] }
