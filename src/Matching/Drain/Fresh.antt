-- ===== src/Matching/Drain/Fresh.antt =====
-- The pairs that the loop over one thread (jbm/src/lib.rs) adds, and those of the threads before it.
use jbm.Prelude.{
  ℕ, ◌≡◌, ◌<◌, refl, sym, ap, ◌∙◌, subst, List, [], ◌∷◌, ◌++◌, map, reverse, Option, none, some,
  All, arith, i64_max, All-mono, All-parts, All-append, All_of_reverse,
}
use jbm.Events.{JvmEvent, BpfEvent, Pair}
use jbm.Matching.Drain.{Sweeping, Flow, next, stop, take_over, round, drain}
use jbm.Matching.Drain.Accounts.{reports_account}
use jbm.Matching.Drain.Cases.{round_cases, drain_rule, Continues}
use jbm.Matching.Drain.Nearest.{IsRising, Leads, settled-Respects}
use jbm.Matching.Drain.Settled.{Respects, IsSettled, stays-Respects, drain-IsSettled}
use jbm.Matching.Drain.Window.{InWindow, IsTimely, round-IsTimely}

-- `G` is what the older pairs have, and keep when a JVM event is taken from them.
module _ (G : Pair → Type 0) (strip : (b : BpfEvent) (j : JvmEvent) → G (b, some j) → G (b, none))
    (bq : List BpfEvent) where
  -- The newer pairs hold the events of the thread's queue that have been worked through.
  pub record Split (bs : List BpfEvent) (ret : List Pair) : Type 0 where
    pub fresh : List Pair
    pub old : List Pair
    pub split : ret ≡ fresh ++ old
    pub parts : reverse (map (λ p. p.0) fresh) ++ bs ≡ bq
    pub good : All G old

  take_over-Split :
      (b : BpfEvent) (bs : List BpfEvent) (fresh old : List Pair) {j : JvmEvent} {ret : List Pair}
      → take_over b (fresh ++ old) ≡ some (j, ret)
      → reverse (map (λ p. p.0) fresh) ++ bs ≡ bq
      → All G old
      → Split bs ret
  unfolding take_over
  take_over-Split b bs [] [] e parts good = cc
  take_over-Split b bs [] ((lb, none) ∷ old) e parts good = cc
  take_over-Split b bs [] ((lb, some lj) ∷ old) e parts good = record {
    fresh = [];
    old = (lb, none) ∷ old;
    split = ground (arith, e);
    parts = parts;
    good = (strip lb lj good.0, good.1);
  }
  take_over-Split b bs ((lb, none) ∷ fresh) old e parts good = cc
  take_over-Split b bs ((lb, some lj) ∷ fresh) old e parts good = record {
    fresh = (lb, none) ∷ fresh;
    old = old;
    split = ground (arith, e);
    parts = parts;
    good = good;
  }

  report-Split :
      {ret : List Pair} (b : BpfEvent) (bs : List BpfEvent) (j : Option JvmEvent)
      → Split (b ∷ bs) ret
      → Split bs ((b, j) ∷ ret)
  report-Split b bs j h = record {
    fresh = (b, j) ∷ h.fresh;
    old = h.old;
    split = ap (λ l. (b, j) ∷ l) h.split;
    parts = reports_account b bs (map (λ p. p.0) h.fresh) ∙ h.parts;
    good = h.good;
  }

  abbrev InParts : List BpfEvent → Sweeping → Type 0
  InParts bs s = Split bs s.ret

  round-Split :
      (now : ℕ) (b : BpfEvent) (rest : List BpfEvent) (s : Sweeping)
      → InParts (b ∷ rest) s
      → Continues InParts InParts b rest (round now b s)
  round-Split now b rest s h =
      round_cases (Continues InParts InParts b rest) now b s
        (λ j ret e.
          report-Split b rest (some j)
            (take_over-Split b (b ∷ rest) h.fresh h.old (rw h.split at e) h.parts h.good))
        (λ _. (λ j _. report-Split b rest (some j) h, λ _ _. report-Split b rest none h, λ _ _. h))

  drain-Split :
      (now : ℕ) (s : Sweeping) → All G s.ret → Split (drain now bq s).0 (drain now bq s).1.ret
  drain-Split now s good =
      drain_rule InParts InParts now (round-Split now) (λ _ h. h) bq s
        (record { fresh = []; old = s.ret; split = refl; parts = refl; good = good })

abbrev Led : List BpfEvent → Sweeping → Type 0
Led bs s = Leads bs s.ret

stops-Leads :
    (b : BpfEvent) (rest : List BpfEvent) (ret : List Pair)
    → b.timestamp < i64_max
    → All InWindow ret
    → take_over b ret ≡ none
    → Leads (b ∷ rest) ret
stops-Leads b rest [] h w e = tt
stops-Leads b rest (p ∷ ret) h w e = stays-Respects b p ret h w.0 e

join :
    (b : BpfEvent) (rest : List BpfEvent) (f : Flow)
    → Continues IsTimely IsTimely b rest f
    → Continues (λ _ _. Unit {0}) Led b rest f
    → Continues IsTimely Led b rest f
join b rest (next s) t h = t
join b rest (stop s) t h = h

drain-Leads :
    (now : ℕ) (bs : List BpfEvent) (s : Sweeping)
    → IsTimely bs s
    → Led (drain now bs s).0 (drain now bs s).1
drain-Leads now bs s t =
    drain_rule IsTimely Led now
      (λ b rest u k. join b rest (round now b u) (round-IsTimely now b rest u k) (
        round_cases (Continues (λ _ _. Unit {0}) Led b rest) now b u (λ _ _ _. tt)
          (λ e.
            (λ _ _. tt, λ _ _. tt, λ _ _. stops-Leads b rest u.ret k.bpf_in_range.0 k.windows e))))
      (λ _ _. tt) bs s t

IsSettled-front : (fresh old : List Pair) → IsSettled (fresh ++ old) → IsSettled fresh
IsSettled-front [] old h = tt
IsSettled-front (p ∷ []) old h = tt
IsSettled-front (p ∷ q ∷ fresh) old h = (h.0, IsSettled-front (q ∷ fresh) old h.1)

Leads-front :
    (bs : List BpfEvent) (fresh old : List Pair) → Leads bs (fresh ++ old) → Leads bs fresh
Leads-front [] fresh old h = tt
Leads-front (b ∷ bs) [] old h = tt
Leads-front (b ∷ bs) (p ∷ fresh) old h = h

-- Each event of the queue of the pair's thread respects the pair, as `Q` gives the queues.
abbrev pub IsNearest : (ℕ → List BpfEvent) → Pair → Type 0
IsNearest Q p = All (λ b. Respects b p) (Q (p.0).tid)

IsNearest-strip :
    (Q : ℕ → List BpfEvent) (b : BpfEvent) (j : JvmEvent)
    → IsNearest Q (b, some j)
    → IsNearest Q (b, none)
IsNearest-strip Q b j h = All-mono (Q b.tid) (λ _ _. tt) h

-- The pairs of thread `t`.
All-IsNearest :
    (Q : ℕ → List BpfEvent) (t : ℕ) (ret : List Pair)
    → All (λ b. b.tid ≡ t) (map (λ p. p.0) ret)
    → All (λ p. All (λ b. Respects b p) (Q t)) ret
    → All (IsNearest Q) ret
All-IsNearest Q t [] tids h = tt
All-IsNearest Q t (p ∷ ret) tids h =
    (subst (λ k. All (λ b. Respects b p) (Q k)) (sym tids.0) h.0, All-IsNearest Q t ret tids.1 h.1)

-- If the times of the queue rise, the loop keeps it that each event of a thread's queue respects all
-- pairs of the thread, whether it was reported before, is reported now, or is left.
pub drain-IsNearest :
    (Q : ℕ → List BpfEvent) (t now : ℕ) (s : Sweeping)
    → IsTimely (Q t) s
    → IsSettled s.ret
    → IsRising (Q t)
    → All (λ b. b.tid ≡ t) (Q t)
    → All (IsNearest Q) s.ret
    → All (IsNearest Q) (drain now (Q t) s).1.ret
drain-IsNearest Q t now s timely settled rising tids good =
    let d = drain now (Q t) s in
    let h = drain-Split (IsNearest Q) (IsNearest-strip Q) (Q t) now s good in
    let reported = map (λ p. p.0) h.fresh in
    let settled' = subst IsSettled h.split (drain-IsSettled now (Q t) s timely settled) in
    let leads = subst (Leads d.0) h.split (drain-Leads now (Q t) s timely) in
    let own =
      settled-Respects h.fresh d.0 (IsSettled-front h.fresh h.old settled')
        (Leads-front d.0 h.fresh h.old leads) (subst IsRising (sym h.parts) rising) in
    let fresh_tids =
      All-parts (λ b. b.tid ≡ t) (reverse reported) d.0
        (subst (All (λ b. b.tid ≡ t)) (sym h.parts) tids) in
    subst (All (IsNearest Q)) (sym h.split) (
      All-append (IsNearest Q) h.fresh h.old h.good (
        All-IsNearest Q t h.fresh (All_of_reverse (λ b. b.tid ≡ t) reported fresh_tids.0)
          (subst (λ l. All (λ p. All (λ b. Respects b p) l) h.fresh) h.parts own)))
