-- ===== src/Matching/Drain/Nearest.antt =====
-- The BPF events about a match of the matching loop (jbm/src/lib.rs).
use jbm.Prelude.{
  ◌<◌, sym, subst, List, [], ◌∷◌, ◌++◌, map, reverse, none, some, All, All-mono, arith,
}
use jbm.Events.{BpfEvent, Pair}
use jbm.Matching.Drain.Accounts.{reports_account}
use jbm.Matching.Drain.Settled.{Respects, IsSettled}

-- Each event is later than those in front of it.
abbrev pub IsRising : List BpfEvent → Type 0
IsRising [] = Unit {0}
IsRising (b ∷ bs) = All (λ later. b.timestamp < later.timestamp) bs × IsRising bs

-- The first event that was not reported before the newest pair does not lie in it.
abbrev pub Leads : List BpfEvent → List Pair → Type 0
Leads [] ret = Unit {0}
Leads (b ∷ bs) [] = Unit {0}
Leads (b ∷ bs) (p ∷ ret) = Respects b p

record Around (front : List BpfEvent) (b : BpfEvent) (back : List BpfEvent) : Type 0 where
  earlier : All (λ a. a.timestamp < b.timestamp) front
  later : All (λ a. b.timestamp < a.timestamp) back
  rising : IsRising back

rising-Around :
    (front : List BpfEvent) (b : BpfEvent) (back : List BpfEvent)
    → IsRising (front ++ (b ∷ back))
    → Around front b back
rising-Around [] b back h = record { earlier = tt; later = h.0; rising = h.1 }
rising-Around (a ∷ front) b back h =
    let rest = rising-Around front b back h.1 in
    record {
      earlier = (All-middle front h.0, rest.earlier);
      later = rest.later;
      rising = rest.rising;
    }
  where
    All-middle :
        (xs : List BpfEvent)
        → All (λ x. a.timestamp < x.timestamp) (xs ++ (b ∷ back))
        → a.timestamp < b.timestamp
    All-middle [] k = k.0
    All-middle (x ∷ xs) k = All-middle xs k.1

All-Respects-append :
    (p : Pair) (front back : List BpfEvent)
    → All (λ b. Respects b p) front
    → All (λ b. Respects b p) back
    → All (λ b. Respects b p) (front ++ back)
All-Respects-append p [] back h k = k
All-Respects-append p (b ∷ front) back h k = (h.0, All-Respects-append p front back h.1 k)

-- Events after the first one that comes after the pair.
later-Respects :
    (p : Pair) (bs : List BpfEvent) (ret : List Pair)
    → All (λ b. (p.0).timestamp < b.timestamp) bs
    → IsRising bs
    → Leads bs (p ∷ ret)
    → All (λ b. Respects b p) bs
later-Respects (lb, none) bs ret h r lead = All-mono bs (λ _ _. tt) h
later-Respects (lb, some lj) [] ret h r lead = tt
later-Respects (lb, some lj) (b ∷ bs) ret h r lead =
    (lead, All-mono bs (λ c k between. lead (h.0, omega (arith, k, between.1))) r.0)

earlier-Respects :
    (p : Pair) (bs : List BpfEvent)
    → All (λ b. b.timestamp < (p.0).timestamp) bs
    → All (λ b. Respects b p) bs
earlier-Respects (lb, none) bs h = All-mono bs (λ _ _. tt) h
earlier-Respects (lb, some lj) bs h = All-mono bs (λ b k between. omega (arith, k, between.0)) h

own-Respects : (p : Pair) → Respects p.0 p
own-Respects (lb, none) = tt
own-Respects (lb, some lj) = λ between. omega (arith, between.0)

Leads-IsSettled :
    (p : Pair) (ret : List Pair) (left : List BpfEvent)
    → IsSettled (p ∷ ret)
    → Leads (p.0 ∷ left) ret × IsSettled ret
Leads-IsSettled p [] left h = (tt, tt)
Leads-IsSettled p (q ∷ ret) left h = h

-- The pairs of settled reports, oldest event first and then those that are left.
pub settled-Respects :
    (ret : List Pair) (left : List BpfEvent)
    → IsSettled ret
    → Leads left ret
    → IsRising (reverse (map (λ p. p.0) ret) ++ left)
    → All (λ p. All (λ b. Respects b p) (reverse (map (λ p. p.0) ret) ++ left)) ret
settled-Respects [] left h lead r = tt
settled-Respects (p ∷ ret) left h lead r =
    let older = reverse (map (λ q. q.0) ret) in
    let same = reports_account p.0 left (map (λ q. q.0) ret) in
    let r' : IsRising (older ++ (p.0 ∷ left)) = subst IsRising same r in
    let around = rising-Around older p.0 left r' in
    let next = Leads-IsSettled p ret left h in
    subst (λ l. All (λ q. All (λ b. Respects b q) l) (p ∷ ret)) (sym same)
      (
        All-Respects-append p older (p.0 ∷ left) (earlier-Respects p older around.earlier)
            (own-Respects p, later-Respects p left ret around.later around.rising lead),
        settled-Respects ret (p.0 ∷ left) next.1 next.0 r',
      )
