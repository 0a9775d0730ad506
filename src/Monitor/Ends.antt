-- ===== src/Monitor/Ends.antt =====
-- How the loop of `main` ends.
use jbm.Prelude.{
  ◌≡◌, ◌≢◌, refl, ap, sym, subst, ◌∙◌, List, [], ◌∷◌, ◌++◌, Bool-cases, true, false, All, arith,
  inl, inr, Result, ok, err,
}
use jbm.Events.{Pair}
use jbm.Stream.{EventStream}
use jbm.Stream.Add.{Failure}
use jbm.Provider.{JvmStackTraceProvider}
use jbm.Process.{process}
use jbm.Monitor.{
  Tick, Outcome, running, interrupted, target_gone, failed, Monitor, print_all, main_loop,
}
use jbm.Monitor.Laws.{IsQuiet}
use jbm.Monitor.Accounts.{Round-cases}

module _ (P : JvmStackTraceProvider) where
  abbrev pub round_of : Tick → Monitor P → P.State × EventStream × Result (List Pair) Failure
  round_of tick m = process P tick.polls tick.ask tick.now m.provider m.stream

  -- The loop came to the ticks that are left with monitor `m`, and ended with monitor `m'`.
  abbrev pub EndsWith : List Tick → Monitor P → Monitor P → Outcome → Type 0
  EndsWith [] m m' running = m' ≡ m
  EndsWith (tick ∷ left) m m' interrupted = (tick.has_done ≡ true) × (m' ≡ m)
  EndsWith (tick ∷ left) m m' target_gone =
      (tick.has_done ≡ false) × (tick.pid_alive ≡ false) × (m' ≡ m)
  EndsWith (tick ∷ left) m m' (failed failure) =
      IsQuiet tick × ((round_of tick m).2 ≡ err failure) × (m' ≡ print_all P m (round_of tick m))
  EndsWith _ m m' _ = ⊥

  -- Some times round the loop without an end, and then the end.
  pub record Ends (ticks : List Tick) (m : Monitor P) : Type 0 where
    pub rounds : List Tick
    pub left : List Tick
    pub reached : Monitor P
    pub split : ticks ≡ rounds ++ left
    pub quiet : All IsQuiet rounds
    pub runs : main_loop P rounds m ≡ (reached, running)
    pub ends : EndsWith left reached (main_loop P ticks m).0 (main_loop P ticks m).1

  Ends-now :
      (ticks : List Tick) (m : Monitor P)
      → EndsWith ticks m (main_loop P ticks m).0 (main_loop P ticks m).1
      → Ends ticks m
  unfolding main_loop
  Ends-now ticks m h = record {
    rounds = [];
    left = ticks;
    reached = m;
    split = refl;
    quiet = tt;
    runs = refl;
    ends = h;
  }

  goes_round :
      (tick : Tick) (m : Monitor P) (st : P.State) (s : EventStream) (pairs : List Pair)
      → IsQuiet tick
      → round_of tick m ≡ (st, s, ok pairs)
      → (ticks : List Tick)
      → main_loop P (tick ∷ ticks) m ≡ main_loop P ticks (print_all P m (st, s, ok pairs))
  unfolding main_loop
  goes_round tick m st s pairs quiet e ticks = ground (arith, quiet, e)

  pub main_loop-Ends : (ticks : List Tick) (m : Monitor P) → Ends ticks m
  unfolding main_loop
  main_loop-Ends [] m = Ends-now [] m refl
  main_loop-Ends (tick ∷ ticks) m = elim (Bool-cases tick.has_done) [
    | inl d ↦ Ends-now (tick ∷ ticks) m (rw (d, main_loop) (refl, refl))
    | inr d ↦ elim (Bool-cases tick.pid_alive) [
      | inr a ↦ Ends-now (tick ∷ ticks) m (rw (d, a, main_loop) (refl, refl, refl))
      | inl a ↦ elim (Round-cases (round_of tick m)) [
        | inr (st, s, f, e) ↦
            Ends-now (tick ∷ ticks) m
              (rw (d, a, e, main_loop) ((refl, refl), ap (λ r. r.2) e, refl))
        | inl (st, s, pairs, e) ↦
            let m1 = print_all P m (st, s, ok pairs) in
            let rest = main_loop-Ends ticks m1 in
            record {
              rounds = tick ∷ rest.rounds;
              left = rest.left;
              reached = rest.reached;
              split = ap (λ l. tick ∷ l) rest.split;
              quiet = ((d, a), rest.quiet);
              runs = goes_round tick m st s pairs (d, a) e rest.rounds ∙ rest.runs;
              ends =
                  subst (λ r. EndsWith rest.left rest.reached r.0 r.1)
                    (sym (goes_round tick m st s pairs (d, a) e ticks)) rest.ends;
            }
      ]
    ]
  ]

  -- Unless a round failed, the loop leaves the monitor as the last round did.
  pub EndsWith-reached :
      (left : List Tick) (reached m : Monitor P) (outcome : Outcome)
      → ((f : Failure) → outcome ≢ failed f)
      → EndsWith left reached m outcome
      → m ≡ reached
  EndsWith-reached [] reached m running fine h = h
  EndsWith-reached [] reached m interrupted fine h = absurd h
  EndsWith-reached [] reached m target_gone fine h = absurd h
  EndsWith-reached [] reached m (failed f) fine h = absurd h
  EndsWith-reached (tick ∷ left) reached m running fine h = absurd h
  EndsWith-reached (tick ∷ left) reached m interrupted fine h = h.1
  EndsWith-reached (tick ∷ left) reached m target_gone fine h = h.2
  EndsWith-reached (tick ∷ left) reached m (failed f) fine h = absurd (fine f refl)
