-- ===== src/Matching/Drain/Fair/Rounds.antt =====
-- The rounds of the matching loop (jbm/src/lib.rs), with what they pass over.
use jbm.Prelude.{
  ℕ, ◌<◌, ◌≤◌, ◌≡◌, ◌⊎◌, inl, inr, List, [], ◌∷◌, ◌++◌, Option, none, some, arith, i64_max, All,
  All-mono, All-mono₂, All-append, subst,
}
use jbm.Events.{JvmEvent, BpfEvent, Pair}
use jbm.Matching.Find.{find_matching_jvm_event}
use jbm.Matching.Find.Sorted.{
  IsSorted, Behind, find_matching_jvm_event-IsSearched, find_matching_jvm_event-parts,
}
use jbm.Matching.Drain.{Sweeping, Flow, next, stop, take_over, round, drain}
use jbm.Matching.Drain.Cases.{round_cases, drain_rule, Continues}
use jbm.Matching.Drain.Nearest.{IsRising}
use jbm.Matching.Drain.Settled.{nearer_test}
use jbm.Matching.Drain.Window.{InWindow, IsTimely, round-IsTimely}
use jbm.Matching.Drain.Fair.{
  IsFair, IsFairRound, AreFair, report-trashed, report-left, Past-older, onward-IsRising,
  Lead-Behind,
}

record TakenOver (b lb : BpfEvent) (lj j : JvmEvent) (old ret : List Pair) : Type 0 where
  same : lj ≡ j
  left : ret ≡ (lb, none) ∷ old
  after : lb.timestamp < b.timestamp
  before : b.timestamp < lj.timestamp

take_over-TakenOver :
    (b lb : BpfEvent) (lj : JvmEvent) (old : List Pair) {j : JvmEvent} {ret : List Pair}
    → b.timestamp < i64_max
    → InWindow (lb, some lj)
    → take_over b ((lb, some lj) ∷ old) ≡ some (j, ret)
    → TakenOver b lb lj j old ret
unfolding take_over
take_over-TakenOver b lb lj old hb w e =
    let test = nearer_test b lb lj hb w.1.2 w in
    record {
      same = ground (arith, e);
      left = ground (arith, e);
      after = ground (arith, e, test);
      before = ground (arith, e, test);
    }

taken-IsFair :
    (b lb : BpfEvent) (lj : JvmEvent) (old : List Pair) (js : List JvmEvent)
    → b.timestamp < lj.timestamp
    → All (λ j. (j.timestamp < lb.timestamp) ⊎ (lj.timestamp ≤ j.timestamp)) js
    → lb.timestamp < b.timestamp
    → All (IsFair ((lb, some lj) ∷ old)) js
    → All (IsFair ((b, some lj) ∷ (lb, none) ∷ old)) js
taken-IsFair b lb lj old js before either after h =
    All-mono₂ js
      (λ j side fair. elim side [
        | inl lt ↦ (
          (λ from to. absurd (omega (arith, lt, after, from))),
          ((λ from to. absurd (omega (arith, lt, from))), fair.1),
        )
        | inr le ↦ ((λ from to. le), ((λ from to. inr (omega (arith, le, before))), fair.1))
      ])
      either h

takes-IsFairRound :
    (b : BpfEvent) (rest : List BpfEvent) (queue trashed : List JvmEvent) (old : List Pair)
    {j : JvmEvent} {ret : List Pair}
    → take_over b old ≡ some (j, ret)
    → b.timestamp < i64_max
    → All InWindow old
    → IsFairRound (b ∷ rest) (record { jvm_queue = queue; ret = old; trashed = trashed })
    → IsFairRound rest (record { jvm_queue = queue; ret = (b, some j) ∷ ret; trashed = trashed })
unfolding take_over
takes-IsFairRound b rest queue trashed [] e hb w h = cc
takes-IsFairRound b rest queue trashed ((lb, none) ∷ old) e hb w h = cc
takes-IsFairRound b rest queue trashed ((lb, some lj) ∷ old) e hb w h =
    let t = take_over-TakenOver b lb lj old hb w.0 e in
    rw (← t.same, t.left)
      (record {
        sorted = h.sorted;
        rising = h.rising.1;
        past = All-mono trashed (λ k lt. omega (arith, lt, t.after)) h.past;
        lead = h.lead;
        old_fair =
            taken-IsFair b lb lj old trashed t.before (All-mono trashed (λ k lt. inl lt) h.past)
              t.after h.old_fair;
        fair =
            taken-IsFair b lb lj old queue t.before (All-mono queue (λ k le. inr le) h.lead) t.after
              h.fair;
      })

finds-IsFairRound :
    (b : BpfEvent) (rest : List BpfEvent) (s : Sweeping) (own : Option JvmEvent)
    → b.timestamp < i64_max
    → All (λ j. j.timestamp < i64_max) s.jvm_queue
    → (find_matching_jvm_event b.timestamp s.jvm_queue).found ≡ own
    → IsFairRound (b ∷ rest) s
    → let f = find_matching_jvm_event b.timestamp s.jvm_queue in
      IsFairRound rest (record {
        jvm_queue = f.jvm_queue;
        ret = (b, own) ∷ s.ret;
        trashed = s.trashed ++ f.trashed;
      })
finds-IsFairRound b rest s own hb range e h =
    let f = find_matching_jvm_event b.timestamp s.jvm_queue in
    let facts = find_matching_jvm_event-IsSearched b.timestamp s.jvm_queue hb range h.sorted in
    let behind : Behind b.timestamp own f.jvm_queue =
      subst (λ o. Behind b.timestamp o f.jvm_queue) e facts.behind in
    let parts = find_matching_jvm_event-parts (IsFair s.ret) b.timestamp s.jvm_queue h.fair in
    let older =
      All-append (λ j. j.timestamp < b.timestamp) s.trashed f.trashed facts.older
        (Past-older b rest s.ret s.trashed h.rising h.past) in
    record {
      sorted = facts.sorted;
      rising = onward-IsRising b rest s.ret h.rising;
      past = older;
      lead = Lead-Behind b own s.ret f.jvm_queue behind;
      old_fair =
          report-trashed b own s.ret (s.trashed ++ f.trashed) older
            (All-append (IsFair s.ret) s.trashed f.trashed parts.0 h.old_fair);
      fair = report-left b own s.ret f.jvm_queue behind parts.2;
    }

stops-AreFair :
    (b : BpfEvent) (rest : List BpfEvent) (s : Sweeping)
    → IsFairRound (b ∷ rest) s
    → let f = find_matching_jvm_event b.timestamp s.jvm_queue in
      AreFair (record { jvm_queue = f.jvm_queue; ret = s.ret; trashed = s.trashed ++ f.trashed })
stops-AreFair b rest s h =
    let f = find_matching_jvm_event b.timestamp s.jvm_queue in
    let parts = find_matching_jvm_event-parts (IsFair s.ret) b.timestamp s.jvm_queue h.fair in
    record {
      trashed = All-append (IsFair s.ret) s.trashed f.trashed parts.0 h.old_fair;
      waiting = parts.2;
    }

round-fair :
    (now : ℕ) (b : BpfEvent) (rest : List BpfEvent) (s : Sweeping)
    → IsTimely (b ∷ rest) s
    → IsFairRound (b ∷ rest) s
    → Continues IsFairRound (λ _ u. AreFair u) b rest (round now b s)
round-fair now b rest s t h =
    let hb = t.bpf_in_range.0 in
    round_cases (Continues IsFairRound (λ _ u. AreFair u) b rest) now b s
      (λ j ret e. takes-IsFairRound b rest s.jvm_queue s.trashed s.ret e hb t.windows h)
      (λ _. (
        λ j e. finds-IsFairRound b rest s (some j) hb t.jvm_in_range e h,
        λ e _. finds-IsFairRound b rest s none hb t.jvm_in_range e h,
        λ _ _. stops-AreFair b rest s h,
      ))

record IsTimelyFair (bs : List BpfEvent) (s : Sweeping) : Type 0 where
  timely : IsTimely bs s
  fair : IsFairRound bs s

join :
    (b : BpfEvent) (rest : List BpfEvent) (f : Flow)
    → Continues IsTimely IsTimely b rest f
    → Continues IsFairRound (λ _ u. AreFair u) b rest f
    → Continues IsTimelyFair (λ _ u. AreFair u) b rest f
join b rest (next s) t h = record { timely = t; fair = h }
join b rest (stop s) t h = h

-- When the loop over the queues of one thread has begun with nothing reported, with both queues in the
-- order of their times, times below 2 ^ 63, and no two BPF events of one time, then at its end no JVM event
-- is trashed or left behind unfairly: if it lies in the window of a reported BPF event, that has a JVM event
-- which is not later, or the BPF event reported next is not later than it either.
pub drain-AreFair :
    (now : ℕ) (bs : List BpfEvent) (js : List JvmEvent)
    → IsTimely bs (record { jvm_queue = js; ret = []; trashed = [] })
    → IsRising bs
    → IsSorted js
    → AreFair (drain now bs (record { jvm_queue = js; ret = []; trashed = [] })).1
drain-AreFair now bs js timely rising sorted =
    drain_rule IsTimelyFair (λ _ u. AreFair u) now
      (λ b rest u k.
        join b rest (round now b u) (round-IsTimely now b rest u k.timely)
          (round-fair now b rest u k.timely k.fair))
      (λ u k. record { trashed = k.fair.old_fair; waiting = k.fair.fair }) bs
      (record { jvm_queue = js; ret = []; trashed = [] })
      (record {
        timely = timely;
        fair = record {
          sorted = sorted;
          rising = rising;
          past = tt;
          lead = tt;
          old_fair = tt;
          fair = All-fair js;
        };
      })
  where
    All-fair : (ks : List JvmEvent) → All (IsFair []) ks
    All-fair [] = tt
    All-fair (k ∷ ks) = (tt, All-fair ks)
