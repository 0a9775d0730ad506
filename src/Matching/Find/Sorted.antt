-- ===== src/Matching/Find/Sorted.antt =====
-- `find_matching_jvm_event` (jbm/src/lib.rs) on a queue in the order of its times.
use jbm.Prelude.{
  ℕ, ◌+◌, ◌<◌, ◌≤◌, sym, subst, List, [], ◌∷◌, ◌++◌, Option, none, some, arith, ltb, i64_max, All,
  All-mono, All-parts, Bool-cases, inl, inr,
}
use jbm.Events.{JvmEvent}
use jbm.Matching.Find.{Search, find_matching_jvm_event, match_threshold}
use jbm.Matching.Find.Laws.{
  InRange, before, not_before, find_matching_jvm_event-reference, find_matching_jvm_event-split,
  found_list, accept,
}

-- No event is older than one in front of it.
abbrev pub IsSorted : List JvmEvent → Type 0
IsSorted [] = Unit {0}
IsSorted (j ∷ js) = All (λ later. j.timestamp ≤ later.timestamp) js × IsSorted js

-- What the events behind a search are.
abbrev pub Behind : ℕ → Option JvmEvent → List JvmEvent → Type 0
Behind t none js = All (λ j. t + match_threshold ≤ j.timestamp) js
Behind t (some found) js = All (λ j. found.timestamp ≤ j.timestamp) js

pub record IsSearched (t : ℕ) (f : Search) : Type 0 where
  pub older : All (λ j. j.timestamp < t) f.trashed
  pub behind : Behind t f.found f.jvm_queue
  pub sorted : IsSorted f.jvm_queue

before-older : (t : ℕ) (js : List JvmEvent) → All (λ j. j.timestamp < t) (before t js)
before-older t [] = tt
before-older t (j ∷ js) = elim (Bool-cases (ltb j.timestamp t)) [
  | inl hit ↦ rw hit (ground (arith, hit), before-older t js)
  | inr miss ↦ rw miss tt
]

not_before-IsSorted : (t : ℕ) (js : List JvmEvent) → IsSorted js → IsSorted (not_before t js)
not_before-IsSorted t [] h = tt
not_before-IsSorted t (j ∷ js) h = elim (Bool-cases (ltb j.timestamp t)) [
  | inl hit ↦ rw hit (not_before-IsSorted t js h.1)
  | inr miss ↦ rw miss h
]

accept-IsSearched :
    (t : ℕ) (old js : List JvmEvent)
    → All (λ j. j.timestamp < t) old
    → IsSorted js
    → IsSearched t (accept t old js)
accept-IsSearched t old [] older h = record { older = older; behind = tt; sorted = tt }
accept-IsSearched t old (j ∷ js) older h =
    elim (Bool-cases (ltb j.timestamp (t + match_threshold))) [
      | inl hit ↦ rw hit (record { older = older; behind = h.0; sorted = h.1 })
      | inr miss ↦
          let late : t + match_threshold ≤ j.timestamp = ground (arith, miss) in
          rw miss (record {
            older = older;
            behind = (late, All-mono js (λ k le. omega arith) h.0);
            sorted = h;
          })
    ]

pub find_matching_jvm_event-IsSearched :
    (t : ℕ) (js : List JvmEvent)
    → t < i64_max
    → InRange js
    → IsSorted js
    → IsSearched t (find_matching_jvm_event t js)
find_matching_jvm_event-IsSearched t js ht range h =
    rw (find_matching_jvm_event-reference t js ht range) (
      accept-IsSearched t (before t js) (not_before t js) (before-older t js)
        (not_before-IsSorted t js h))

-- What holds of the queue holds of the events that are trashed, and of those that are left.
pub find_matching_jvm_event-parts {ℓ} :
    (P : JvmEvent → Type ℓ) (t : ℕ) (js : List JvmEvent)
    → All P js
    → let f = find_matching_jvm_event t js in
      All P f.trashed × All P (found_list f.found) × All P f.jvm_queue
find_matching_jvm_event-parts P t js h =
    let f = find_matching_jvm_event t js in
    let (trashed, kept) =
      All-parts P f.trashed (found_list f.found ++ f.jvm_queue)
        (subst (All P) (sym (find_matching_jvm_event-split t js)) h) in
    let (found, left) = All-parts P (found_list f.found) f.jvm_queue kept in (trashed, found, left)
