-- ===== src/Matching/Drain/Apart.antt =====
-- The matching loop (jbm/src/lib.rs) on blocks of one thread that do not overlap.
use mathlib.Core.List.{append_assoc, append-nil, reverse-cons}
use jbm.Prelude.{
  ℕ, ◌+◌, ◌<◌, ◌≤◌, ◌≡◌, refl, sym, ap, ◌∙◌, List, [], ◌∷◌, ◌++◌, map, reverse, none, some, arith,
  i64_max, All,
}
use jbm.Events.{JvmEvent, BpfEvent, Pair}
use jbm.Matching.Find.{find_matching_jvm_event, match_threshold}
use jbm.Matching.Drain.{Sweeping, next, take_over, after_search, round, drain}

-- A BPF event, its JVM event, and the JVM events that came since the block before it and belong to none.
pub record Block : Type 0 where
  pub bpf : BpfEvent
  pub stale : List JvmEvent
  pub own : JvmEvent

abbrev pub pair_of : Block → Pair
pair_of b = (b.bpf, some b.own)

abbrev pub bpf_queue_of : List Block → List BpfEvent
bpf_queue_of bs = map (λ b. b.bpf) bs

abbrev pub jvm_queue_of : List Block → List JvmEvent
jvm_queue_of [] = []
jvm_queue_of (b ∷ bs) = b.stale ++ (b.own ∷ jvm_queue_of bs)

abbrev pub stale_of : List Block → List JvmEvent
stale_of [] = []
stale_of (b ∷ bs) = b.stale ++ stale_of bs

-- The own event lies in the window of the BPF event, the stale ones before it.
pub record IsBlock (b : Block) : Type 0 where
  pub old : All (λ j. j.timestamp < b.bpf.timestamp) b.stale
  pub from : b.bpf.timestamp ≤ b.own.timestamp
  pub to : b.own.timestamp < b.bpf.timestamp + match_threshold
  pub in_range : b.own.timestamp < i64_max

-- The last JVM event that was reported is not later than `t`.
abbrev pub IsUntil : ℕ → List Pair → Type 0
IsUntil t [] = Unit {0}
IsUntil t ((b, none) ∷ ret) = Unit {0}
IsUntil t ((b, some j) ∷ ret) = j.timestamp ≤ t

-- No block begins before the JVM event of the block before it.
abbrev pub AreApart : List Pair → List Block → Type 0
AreApart ret [] = Unit {0}
AreApart ret (b ∷ bs) = IsUntil b.bpf.timestamp ret × IsBlock b × AreApart (pair_of b ∷ ret) bs

take_over-none :
    (b : BpfEvent) (ret : List Pair)
    → b.timestamp < i64_max
    → IsUntil b.timestamp ret
    → take_over b ret ≡ none
unfolding take_over
take_over-none b [] hb h = refl
take_over-none b ((lb, none) ∷ ret) hb h = refl
take_over-none b ((lb, some lj) ∷ ret) hb h = ground arith

find_matching_jvm_event-own :
    (t : ℕ) (stale : List JvmEvent) (own : JvmEvent) (rest : List JvmEvent)
    → All (λ j. j.timestamp < t) stale
    → t ≤ own.timestamp
    → own.timestamp < t + match_threshold
    → own.timestamp < i64_max
    → find_matching_jvm_event t (stale ++ (own ∷ rest))
      ≡ record { found = some own; jvm_queue = rest; trashed = stale }
unfolding find_matching_jvm_event
find_matching_jvm_event-own t [] own rest old from to range = ground arith
find_matching_jvm_event-own t (j ∷ stale) own rest old from to range =
    ground (arith, find_matching_jvm_event-own t stale own rest old.1 from to range)

round-own :
    (now : ℕ) (b : Block) (rest : List JvmEvent) (ret : List Pair) (trashed : List JvmEvent)
    → IsUntil b.bpf.timestamp ret
    → IsBlock b
    → round now b.bpf
        (record { jvm_queue = b.stale ++ (b.own ∷ rest); ret = ret; trashed = trashed })
      ≡ next (record { jvm_queue = rest; ret = pair_of b ∷ ret; trashed = trashed ++ b.stale })
unfolding round after_search
round-own now b rest ret trashed until h =
    let hb : b.bpf.timestamp < i64_max = omega (arith, h.from, h.in_range) in
    let s : Sweeping = record {
      jvm_queue = b.stale ++ (b.own ∷ rest);
      ret = ret;
      trashed = trashed;
    } in
    rw (take_over-none b.bpf ret hb until, round)
      (ap (after_search now b.bpf s) (
        find_matching_jvm_event-own b.bpf.timestamp b.stale b.own rest h.old h.from h.to
          h.in_range))

reverse_cons :
    (b : Block) (bs : List Block) (ret : List Pair)
    → reverse (map pair_of bs) ++ (pair_of b ∷ ret) ≡ reverse (map pair_of (b ∷ bs)) ++ ret
reverse_cons b bs ret =
    rw (reverse-cons (pair_of b) (map pair_of bs))
      (sym (append_assoc (reverse (map pair_of bs)) (pair_of b ∷ []) ret))

pub reverse_append :
    (xs ys : List Block) (ret : List Pair)
    → reverse (map pair_of ys) ++ (reverse (map pair_of xs) ++ ret)
      ≡ reverse (map pair_of (xs ++ ys)) ++ ret
reverse_append [] ys ret = refl
reverse_append (x ∷ xs) ys ret =
    ap (λ l. reverse (map pair_of ys) ++ l) (sym (reverse_cons x xs ret))
    ∙ reverse_append xs ys (pair_of x ∷ ret)
    ∙ reverse_cons x (xs ++ ys) ret

pub stale_of-append : (xs ys : List Block) → stale_of xs ++ stale_of ys ≡ stale_of (xs ++ ys)
stale_of-append [] ys = refl
stale_of-append (x ∷ xs) ys =
    append_assoc x.stale (stale_of xs) (stale_of ys)
    ∙ ap (λ l. x.stale ++ l) (stale_of-append xs ys)

-- The blocks behind the first are apart from what those have left in `ret`.
pub AreApart-parts :
    (xs ys : List Block) (ret : List Pair)
    → AreApart ret (xs ++ ys)
    → AreApart ret xs × AreApart (reverse (map pair_of xs) ++ ret) ys
AreApart-parts [] ys ret h = (tt, h)
AreApart-parts (x ∷ xs) ys ret h =
    let (front, back) = AreApart-parts xs ys (pair_of x ∷ ret) h.2 in
    ((h.0, h.1, front), rw (← reverse_cons x xs ret) back)

-- If the queues of one thread are those of blocks that are apart, each in the window of its own JVM event, and
-- before each own event only JVM events older than the BPF event have come since the block before, then the
-- loop reports every BPF event with its own JVM event, in order, trashes exactly the others, and leaves both
-- queues empty, whatever the time.
pub drain-blocks :
    (now : ℕ) (bs : List Block) (ret : List Pair) (trashed : List JvmEvent)
    → AreApart ret bs
    → drain now
        (bpf_queue_of bs)
        (record { jvm_queue = jvm_queue_of bs; ret = ret; trashed = trashed })
      ≡ (
        [],
        record {
          jvm_queue = [];
          ret = reverse (map pair_of bs) ++ ret;
          trashed = trashed ++ stale_of bs;
        },
      )
unfolding drain
drain-blocks now [] ret trashed h = rw (append-nil trashed) refl
drain-blocks now (b ∷ bs) ret trashed h =
    rw (round-own now b (jvm_queue_of bs) ret trashed h.0 h.1, drain)
      (rw (← reverse_cons b bs ret, ← append_assoc trashed b.stale (stale_of bs))
        (drain-blocks now bs (pair_of b ∷ ret) (trashed ++ b.stale) h.2))
