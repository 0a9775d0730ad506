-- ===== src/Matching/Drain/Fair.antt =====
-- What a JVM event that the matching loop (jbm/src/lib.rs) passes over gives way to.
pub mod Rounds
use jbm.Prelude.{
  ◌+◌, ◌<◌, ◌≤◌, ◌⊎◌, inl, List, [], ◌∷◌, Option, none, some, arith, All, All-mono, All-mono₂,
}
use jbm.Events.{JvmEvent, BpfEvent, Pair}
use jbm.Matching.Find.{match_threshold}
use jbm.Matching.Find.Sorted.{IsSorted, Behind}
use jbm.Matching.Drain.{Sweeping}
use jbm.Matching.Drain.Nearest.{IsRising}

-- The pair's own JVM event is not later.
abbrev pub HasEarlier : Option JvmEvent → JvmEvent → Type 0
HasEarlier none j = ⊥
HasEarlier (some own) j = own.timestamp ≤ j.timestamp

-- If `j` is in the window of the BPF event, then that has a JVM event not later than `j`.
abbrev pub IsServed : Pair → JvmEvent → Type 0
IsServed (b, own) j =
    b.timestamp ≤ j.timestamp → j.timestamp < b.timestamp + match_threshold → HasEarlier own j

-- Or else the BPF event `after`, reported next, is not later than `j` either.
abbrev pub IsServedOr : BpfEvent → Pair → JvmEvent → Type 0
IsServedOr after (b, own) j =
    b.timestamp ≤ j.timestamp
    → j.timestamp < b.timestamp + match_threshold
    → HasEarlier own j ⊎ (after.timestamp ≤ j.timestamp)

-- The same for the pairs, newest first, reported before `after`.
abbrev pub AreServed : BpfEvent → List Pair → JvmEvent → Type 0
AreServed after [] j = Unit {0}
AreServed after (p ∷ ret) j = IsServedOr after p j × AreServed p.0 ret j

-- The newest pair is served, and each of the others is, or the pair after it comes before `j`.
abbrev pub IsFair : List Pair → JvmEvent → Type 0
IsFair [] j = Unit {0}
IsFair (p ∷ ret) j = IsServed p j × AreServed p.0 ret j

-- Before each round: the JVM events that were trashed and those in the queue are dealt with fairly.
abbrev Past : List Pair → List JvmEvent → Type 0
Past [] js = All (λ j. ⊥) js
Past (p ∷ ret) js = All (λ j. j.timestamp < (p.0).timestamp) js

abbrev onward : List Pair → List BpfEvent → List BpfEvent
onward [] bs = bs
onward (p ∷ ret) bs = p.0 ∷ bs

abbrev Lead : List Pair → List JvmEvent → Type 0
Lead [] js = Unit {0}
Lead ((b, none) ∷ ret) js = Unit {0}
Lead ((b, some own) ∷ ret) js = All (λ j. own.timestamp ≤ j.timestamp) js

record IsFairRound (bs : List BpfEvent) (s : Sweeping) : Type 0 where
  sorted : IsSorted s.jvm_queue
  rising : IsRising (onward s.ret bs)
  past : Past s.ret s.trashed
  lead : Lead s.ret s.jvm_queue
  old_fair : All (IsFair s.ret) s.trashed
  fair : All (IsFair s.ret) s.jvm_queue

-- What is promised at the end.
pub record AreFair (s : Sweeping) : Type 0 where
  pub trashed : All (IsFair s.ret) s.trashed
  pub waiting : All (IsFair s.ret) s.jvm_queue

IsFair-AreServed :
    (b : BpfEvent) (ret : List Pair) (j : JvmEvent) → IsFair ret j → AreServed b ret j
IsFair-AreServed b [] j h = tt
IsFair-AreServed b (p ∷ ret) j h = ((λ from to. inl (h.0 from to)), h.1)

-- A new pair `(b, own)`, and the JVM events that the search has trashed or left.
report-trashed :
    (b : BpfEvent) (own : Option JvmEvent) (ret : List Pair) (js : List JvmEvent)
    → All (λ j. j.timestamp < b.timestamp) js
    → All (IsFair ret) js
    → All (IsFair ((b, own) ∷ ret)) js
report-trashed b own ret js older h =
    All-mono₂ js
      (λ j lt fair. ((λ from to. absurd (omega (arith, lt, from))), IsFair-AreServed b ret j fair))
      older h

report-left :
    (b : BpfEvent) (own : Option JvmEvent) (ret : List Pair) (js : List JvmEvent)
    → Behind b.timestamp own js
    → All (IsFair ret) js
    → All (IsFair ((b, own) ∷ ret)) js
report-left b none ret js behind h =
    All-mono₂ js
      (λ j le fair. ((λ from to. absurd (omega (arith, le, to))), IsFair-AreServed b ret j fair))
      behind h
report-left b (some own) ret js behind h =
    All-mono₂ js (λ j le fair. ((λ from to. le), IsFair-AreServed b ret j fair)) behind h

-- The events trashed before are older than the next BPF event.
Past-older :
    (b : BpfEvent) (bs : List BpfEvent) (ret : List Pair) (js : List JvmEvent)
    → IsRising (onward ret (b ∷ bs))
    → Past ret js
    → All (λ j. j.timestamp < b.timestamp) js
Past-older b bs [] js r h = All-mono js (λ j bottom. absurd bottom) h
Past-older b bs (p ∷ ret) js r h = All-mono js (λ j lt. omega (arith, lt, r.0.0)) h

onward-IsRising :
    (b : BpfEvent) (bs : List BpfEvent) (ret : List Pair)
    → IsRising (onward ret (b ∷ bs))
    → IsRising (b ∷ bs)
onward-IsRising b bs [] r = r
onward-IsRising b bs (p ∷ ret) r = r.1

Lead-Behind :
    (b : BpfEvent) (own : Option JvmEvent) (ret : List Pair) (js : List JvmEvent)
    → Behind b.timestamp own js
    → Lead ((b, own) ∷ ret) js
Lead-Behind b none ret js h = tt
Lead-Behind b (some own) ret js h = h
