-- ===== src/Matching/Drain/Tids.antt =====
-- The thread ids of the two halves of a pair. A pair keeps to one thread as long as the last pair that
-- the loop finds in `ret` is of the thread that it drains.
use jbm.Prelude.{ℕ, ◌≡◌, refl, true, List, [], ◌∷◌, none, some, arith, All, i64_max, ◌<◌}
use jbm.Events.{JvmEvent, BpfEvent, Pair}
use jbm.Matching.Find.{find_matching_jvm_event}
use jbm.Matching.Drain.{Sweeping, take_over, is_nearer, round, drain, next}
use jbm.Matching.Drain.Cases.{round_cases, drain_rule, Continues}

-- Both events of the pair are of thread `t`.
abbrev pub OfThread : ℕ → Pair → Type 0
OfThread t (b, none) = b.tid ≡ t
OfThread t (b, some j) = (b.tid ≡ t) × (j.tid ≡ t)

record IsOfThread (t : ℕ) (bs : List BpfEvent) (s : Sweeping) : Type 0 where
  bpf_tids : All (λ b. b.tid ≡ t) bs
  jvm_tids : All (λ j. j.tid ≡ t) s.jvm_queue
  pair_tids : All (OfThread t) s.ret

take_over-OfThread :
    (t : ℕ) (b : BpfEvent) (ret : List Pair) {j : JvmEvent} {ret' : List Pair}
    → b.tid ≡ t
    → All (OfThread t) ret
    → take_over b ret ≡ some (j, ret')
    → All (OfThread t) ((b, some j) ∷ ret')
unfolding take_over
take_over-OfThread t b [] hb h e = cc
take_over-OfThread t b ((lb, none) ∷ ret) hb h e = cc
take_over-OfThread t b ((lb, some lj) ∷ ret) hb h e = ground arith

find_matching-tids :
    (t time : ℕ) (js : List JvmEvent)
    → All (λ j. j.tid ≡ t) js
    → let f = find_matching_jvm_event time js in
      All (λ j. j.tid ≡ t) f.jvm_queue × ((j : JvmEvent) → f.found ≡ some j → j.tid ≡ t)
unfolding find_matching_jvm_event
find_matching-tids t time [] h = (tt, λ j e. cc)
find_matching-tids t time (k ∷ js) h =
    let ih = find_matching-tids t time js h.1 in
    (ground (arith, ih.0), λ j e. ground (arith, ih.1 j))

round-IsOfThread :
    (t now : ℕ) (b : BpfEvent) (rest : List BpfEvent) (s : Sweeping)
    → IsOfThread t (b ∷ rest) s
    → Continues (IsOfThread t) (IsOfThread t) b rest (round now b s)
round-IsOfThread t now b rest s h =
    round_cases (Continues (IsOfThread t) (IsOfThread t) b rest) now b s
      (λ j ret e. record {
        bpf_tids = h.bpf_tids.1;
        jvm_tids = h.jvm_tids;
        pair_tids = take_over-OfThread t b s.ret h.bpf_tids.0 h.pair_tids e;
      })
      (λ _. (
        λ j e. record {
          bpf_tids = h.bpf_tids.1;
          jvm_tids = searched_tids.0;
          pair_tids = ((h.bpf_tids.0, searched_tids.1 j e), h.pair_tids);
        },
        λ _ _. record {
          bpf_tids = h.bpf_tids.1;
          jvm_tids = searched_tids.0;
          pair_tids = (h.bpf_tids.0, h.pair_tids);
        },
        λ _ _. record {
          bpf_tids = h.bpf_tids;
          jvm_tids = searched_tids.0;
          pair_tids = h.pair_tids;
        },
      ))
  where
    searched_tids :
        let f = find_matching_jvm_event b.timestamp s.jvm_queue in
        All (λ j. j.tid ≡ t) f.jvm_queue × ((j : JvmEvent) → f.found ≡ some j → j.tid ≡ t)
    searched_tids = find_matching-tids t b.timestamp s.jvm_queue h.jvm_tids

-- If the queues and the pairs in `ret` are all of thread `t` when the loop starts, then both events of
-- every reported pair are of thread `t`.
drain-IsOfThread :
    (t now : ℕ) (bs : List BpfEvent) (s : Sweeping)
    → IsOfThread t bs s
    → IsOfThread t (drain now bs s).0 (drain now bs s).1
drain-IsOfThread t now =
    drain_rule (IsOfThread t) (IsOfThread t) now (round-IsOfThread t now) (λ s h. h)

-- The loop does not look at threads: whenever a BPF event lies strictly between the two events of the
-- last pair in `ret`, it takes the JVM event of that pair over, whatever the threads of the three are.
pub round_crosses :
    (now : ℕ) (b lb : BpfEvent) (lj : JvmEvent) (ret : List Pair) (js trashed : List JvmEvent)
    → lb.timestamp < b.timestamp
    → b.timestamp < lj.timestamp
    → lj.timestamp < i64_max
    → round now b (record { jvm_queue = js; ret = (lb, some lj) ∷ ret; trashed = trashed })
      ≡ next (record { jvm_queue = js; ret = (b, some lj) ∷ ((lb, none) ∷ ret); trashed = trashed })
unfolding round take_over
round_crosses now b lb lj ret js trashed h k m = rw (nearer, round) refl
  where
    nearer : is_nearer b lb lj ≡ true
    nearer = ground arith
