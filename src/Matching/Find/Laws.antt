-- ===== src/Matching/Find/Laws.antt =====
-- What a search finds, and what becomes of the queue.
use jbm.Prelude.{
  ℕ, ◌+◌, ◌<◌, ◌≤◌, ◌≡◌, refl, false, List, [], ◌∷◌, ◌++◌, Option, none, some, arith, ltb, sub64,
  lt_i64, i64_max, All, if◌then◌else◌,
}
use jbm.Events.{JvmEvent}
use jbm.Matching.Find.{Search, find_matching_jvm_event, match_threshold}

-- Times below 2 ^ 63, on which the casts to `i64` are exact.
abbrev pub InRange : List JvmEvent → Type 0
InRange = All (λ j. j.timestamp < i64_max)

-- The reference: split the queue where the events stop being older than the time, and look at the
-- first of the others.
abbrev pub before : ℕ → List JvmEvent → List JvmEvent
before t [] = []
before t (j ∷ js) = if ltb j.timestamp t then j ∷ before t js else []

abbrev pub not_before : ℕ → List JvmEvent → List JvmEvent
not_before t [] = []
not_before t (j ∷ js) = if ltb j.timestamp t then not_before t js else j ∷ js

abbrev pub accept : ℕ → List JvmEvent → List JvmEvent → Search
accept t old [] = record { found = none; jvm_queue = []; trashed = old }
accept t old (j ∷ js) =
    if ltb j.timestamp (t + match_threshold)
    then record { found = some j; jvm_queue = js; trashed = old }
    else record { found = none; jvm_queue = j ∷ js; trashed = old }

abbrev pub reference : ℕ → List JvmEvent → Search
reference t js = accept t (before t js) (not_before t js)

window_test :
    (j t : ℕ)
    → j < i64_max
    → t < i64_max
    → ltb j t ≡ false
    → lt_i64 (sub64 j t) match_threshold ≡ ltb j (t + match_threshold)
window_test j t hj ht h = ground arith

sign_test : (j t : ℕ) → j < i64_max → t < i64_max → lt_i64 (sub64 j t) 0 ≡ ltb j t
sign_test j t hj ht = ground arith

accept_trash :
    (t : ℕ) (j : JvmEvent) (old js : List JvmEvent)
    → accept t (j ∷ old) js ≡ (let s = accept t old js in record s { trashed = j ∷ s.trashed })
accept_trash t j old [] = refl
accept_trash t j old (k ∷ js) = ground arith

-- On times below 2 ^ 63 the search gives what the reference gives: it trashes the events at the head
-- that are older than the time, and then takes the next one if it is less than 1000 ms younger.
pub find_matching_jvm_event-reference :
    (t : ℕ) (js : List JvmEvent)
    → t < i64_max
    → InRange js
    → find_matching_jvm_event t js ≡ reference t js
unfolding find_matching_jvm_event
find_matching_jvm_event-reference t [] ht h = refl
find_matching_jvm_event-reference t (j ∷ js) ht h = ground (
  arith,
  sign_test j.timestamp t h.0 ht,
  window_test j.timestamp t h.0 ht,
  find_matching_jvm_event-reference t js ht h.1,
  accept_trash t j (before t js) (not_before t js),
)

abbrev pub found_list : Option JvmEvent → List JvmEvent
found_list none = []
found_list (some j) = j ∷ []

-- The queue is split, in its order, into the trashed events, the match and the rest.
pub find_matching_jvm_event-split :
    (t : ℕ) (js : List JvmEvent)
    → let s = find_matching_jvm_event t js in s.trashed ++ (found_list s.found ++ s.jvm_queue) ≡ js
unfolding find_matching_jvm_event
find_matching_jvm_event-split t [] = refl
find_matching_jvm_event-split t (j ∷ js) = ground (arith, find_matching_jvm_event-split t js)

-- A match is an event of the queue's range that is not older than the time, and less than 1000 ms
-- younger.
pub find_matching_jvm_event-window :
    (t : ℕ) (js : List JvmEvent) {j : JvmEvent}
    → t < i64_max
    → InRange js
    → (find_matching_jvm_event t js).found ≡ some j
    → (t ≤ j.timestamp) × (j.timestamp < t + match_threshold) × (j.timestamp < i64_max)
unfolding find_matching_jvm_event
find_matching_jvm_event-window t [] ht h e = cc
find_matching_jvm_event-window t (k ∷ js) {j} ht h e = ground (
  arith,
  sign_test k.timestamp t h.0 ht,
  window_test k.timestamp t h.0 ht,
  find_matching_jvm_event-window t js {j = j} ht h.1,
)

-- What is left in the queue keeps what holds of each event.
pub find_matching_jvm_event-All {ℓ} :
    (P : JvmEvent → Type ℓ) (t : ℕ) (js : List JvmEvent)
    → All P js
    → All P (find_matching_jvm_event t js).jvm_queue
unfolding find_matching_jvm_event
find_matching_jvm_event-All P t [] h = tt
find_matching_jvm_event-All P t (j ∷ js) h = ground (arith, find_matching_jvm_event-All P t js h.1)

pub find_matching_jvm_event-InRange :
    (t : ℕ) (js : List JvmEvent) → InRange js → InRange (find_matching_jvm_event t js).jvm_queue
find_matching_jvm_event-InRange t js h =
    find_matching_jvm_event-All (λ j. j.timestamp < i64_max) t js h
