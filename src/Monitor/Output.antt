-- ===== src/Monitor/Output.antt =====
-- The texts that the loop of `main` prints (jbm/src/main.rs), in which a time may be one that
-- `format_time` cannot show.
use mathlib.Core.List.{map-append}
use jbm.Prelude.{
  ℕ, ◌+◌, ◌≤◌, ◌<◌, ◌≡◌, refl, ap, Bool, true, false, ◌&&◌, List, [], ◌∷◌, map, Option, none, some,
  Result, ok, err, Text, All, All-append, All-mono, i64_max, arith, if◌then◌else◌,
}
use jbm.Events.{Pair}
use jbm.Matching.Drain.Window.{InWindow}
use jbm.Report.{report_text}
use jbm.Stream.{EventStream}
use jbm.Stream.Add.{Failure}
use jbm.Stream.Sweep.Reported.{Waiting}
use jbm.System.{LocalResult, single, format_time, format_time-single}
use jbm.Provider.{JvmStackTraceProvider}
use jbm.Process.{process}
use jbm.Process.Shown.{NotAfter, AllNotAfter, process-Waiting}
use jbm.Monitor.{Tick, Monitor, print_all, main_loop}
use jbm.Monitor.Laws.{IsSound, main_loop-IsSound}

module _ (show : ℕ → Option Text) where
  abbrev is_shown : Option Text → Bool
  is_shown none = false
  is_shown (some t) = true

  abbrev or_nothing : Option Text → Text
  or_nothing none = []
  or_nothing (some t) = t

  -- The time as it is shown, where it is.
  abbrev pub shown : ℕ → Text
  shown t = or_nothing (show t)

  abbrev times_shown : Pair → Bool
  times_shown (b, none) = is_shown (show b.timestamp)
  times_shown (b, some j) = is_shown (show b.timestamp) && is_shown (show j.timestamp)

  abbrev pub print_text : Pair → Option Text
  print_text p = if times_shown p then some (report_text shown p) else none

  -- The texts, up to the first pair whose printing panics, and whether none does.
  unfoldable pub print_texts : List Pair → List Text × Bool
  print_texts [] = ([], true)
  print_texts (p ∷ ps) =
      let (ts, fine) = print_texts ps in
      elim (print_text p) [ none ↦ ([], false) | some t ↦ (t ∷ ts, fine) ]

  -- The times of a pair can be shown.
  abbrev pub Showable : ℕ → Type 0
  Showable t = (text : Text) × (show t ≡ some text)

  times_shown-true :
      (p : Pair) (last : ℕ)
      → ((t : ℕ) → t < last + 1000 → Showable t)
      → InWindow p
      → NotAfter last p.0
      → times_shown p ≡ true
  times_shown-true (b, none) last h w early = let (t, e) = h b.timestamp (omega arith) in rw e refl
  times_shown-true (b, some j) last h w early =
      let (t, e) = h b.timestamp (omega arith) in
      let (u, f) = h j.timestamp (ground (arith, w, early)) in rw (e, f) refl

  print_texts-all :
      (ps : List Pair) (last : ℕ)
      → ((t : ℕ) → t < last + 1000 → Showable t)
      → All InWindow ps
      → All (NotAfter last) (map (λ p. p.0) ps)
      → print_texts ps ≡ (map (report_text shown) ps, true)
  unfolding print_texts
  print_texts-all [] last h w early = refl
  print_texts-all (p ∷ ps) last h w early =
      let one : print_text p ≡ some (report_text shown p) =
        rw (times_shown-true p last h w.0 early.0) refl in
      let rest = print_texts-all ps last h w.1 early.1 in
      rw (one, print_texts) (ap (λ r. (report_text shown p ∷ r.0, r.1)) rest)

-- The wall clock is at `last` or before in all that a round adds.
abbrev pub UpTo : ℕ → Tick → Type 0
UpTo last tick = (n : ℕ) → (tick.ask n).now ≤ last

-- What waits and what is printed is not later than `last`.
pub record IsUpTo (last : ℕ) {P : JvmStackTraceProvider} (m : Monitor P) : Type 0 where
  pub waiting : Waiting (NotAfter last) m.stream
  pub printed : All (NotAfter last) (map (λ p. p.0) m.printed)

module _ (P : JvmStackTraceProvider) (last : ℕ) where
  print_all-IsUpTo :
      (m : Monitor P) (r : P.State × EventStream × Result (List Pair) Failure)
      → IsUpTo last m
      → Waiting (NotAfter last) r.1 × AllNotAfter last r.2
      → IsUpTo last (print_all P m r)
  unfolding print_all
  print_all-IsUpTo m (st, s, ok pairs) k h = record {
    waiting = h.0;
    printed = rw (map-append (λ p. p.0) m.printed pairs) (
        All-append (NotAfter last) (map (λ p. p.0) m.printed) (map (λ p. p.0) pairs) h.1 k.printed);
  }
  print_all-IsUpTo m (st, s, err failure) k h = record { waiting = h.0; printed = k.printed }

  main_loop-IsUpTo :
      (ticks : List Tick) (m : Monitor P)
      → All (UpTo last) ticks
      → IsUpTo last m
      → IsUpTo last (main_loop P ticks m).0
  unfolding main_loop
  main_loop-IsUpTo [] m h k = k
  main_loop-IsUpTo (tick ∷ ticks) m h k =
      let r = process P tick.polls tick.ask tick.now m.provider m.stream in
      let k' =
        print_all-IsUpTo m r k
          (process-Waiting last P tick.polls tick.ask tick.now m.provider m.stream h.0 k.waiting) in
      let rest = main_loop-IsUpTo ticks (print_all P m r) h.1 k' in ground (arith, rest, k, k')

  -- Printing does not panic: if the wall clock is at `last` or before whenever an event is added, and
  -- chrono has a single local time for each time before `last` and a second, then the loop prints the report
  -- of each pair in full, also the time of a Java stack. The provider gives only
  -- times below 2 ^ 63. At the start the monitor must be sound and nothing later than `last`.
  pub main_loop-print_texts :
      {A : Type 0} (timestamp_millis_opt : ℕ → LocalResult A) (format : A → Text → Text)
      (ticks : List Tick) (m : Monitor P)
      → last < i64_max
      → ((t : ℕ) → t < last + 1000 → (d : A) × (timestamp_millis_opt t ≡ single d))
      → All (UpTo last) ticks
      → IsSound m
      → IsUpTo last m
      → let show = format_time timestamp_millis_opt format in
        let pairs = (main_loop P ticks m).0.printed in
        print_texts show pairs ≡ (map (report_text (shown show)) pairs, true)
  main_loop-print_texts timestamp_millis_opt format ticks m word local times sound early =
      let show = format_time timestamp_millis_opt format in
      let in_time = All-mono ticks (λ tick h n. omega (arith, h n)) times in
      print_texts-all show (main_loop P ticks m).0.printed last
        (λ t h. let (d, e) = local t h in format_time-single timestamp_millis_opt format t e)
        (main_loop-IsSound P ticks m in_time sound).windows
        (main_loop-IsUpTo ticks m times early).printed
