-- ===== src/Stream/Sweep/Nearest.antt =====
-- The BPF events about the matches of a sweep (jbm/src/lib.rs).
use jbm.Prelude.{ℕ, ◌≡◌, ◌≢◌, refl, sym, ◌∙◌, subst, List, [], ◌∷◌, some, All, All-mono, All-mono₂}
use jbm.HashMap.{get, queue, keys, get-store_ne}
use jbm.HashMap.Entries.{Distinct}
use jbm.Events.{BpfEvent}
use jbm.Matching.Drain.{Sweeping, drain}
use jbm.Matching.Drain.Fresh.{IsNearest, drain-IsNearest}
use jbm.Matching.Drain.Nearest.{IsRising}
use jbm.Matching.Drain.Window.{IsTimely}
use jbm.Stream.{EventStream, IsValid}
use jbm.Stream.Sweep.{Swept, start, settle, sweep_all}
use jbm.Stream.Sweep.Total.{sweep_all_rule}
use jbm.Stream.Sweep.Valid.{IsSound, settle-IsSound, start-IsTimely, front-fits, queue_of_get}

module _ (s : EventStream) where
  -- The queues at the start.
  abbrev pub queues : ℕ → List BpfEvent
  queues k = queue k s.bpf_events

  record IsNear (ts : List ℕ) (w : Swept) : Type 0 where
    sound : IsSound w
    nearest : All (IsNearest queues) w.ret
    apart : Distinct ts
    untouched : All (λ t. queue t w.stream.bpf_events ≡ queues t) ts

  settle-untouched :
      (t : ℕ) (ts : List ℕ) (w : Swept) (d : List BpfEvent × Sweeping)
      → All (λ j. j ≢ t) ts
      → All (λ j. queue j w.stream.bpf_events ≡ queues j) ts
      → All (λ j. queue j (settle t w d).stream.bpf_events ≡ queues j) ts
  settle-untouched t ts w (bq, u) others h =
      All-mono₂ ts
        (λ j other same. rw (get-store_ne j t bq w.stream.bpf_events (λ e. other (sym e))) same)
        others h

  settle-IsNear :
      ((k : ℕ) → IsRising (queues k))
      → (now t : ℕ) (ts : List ℕ) (w : Swept) (bq : List BpfEvent)
      → get t w.stream.bpf_events ≡ some bq
      → IsNear (t ∷ ts) w
      → IsNear ts (settle t w (drain now bq (start t w)))
  settle-IsNear rising now t ts w bq e h =
      let fits = front-fits t w bq e h.sound.valid in
      let whole : bq ≡ queues t = sym (queue_of_get t w e) ∙ h.untouched.0 in
      let nearest =
        drain-IsNearest queues t now (start t w)
          (subst (λ q. IsTimely q (start t w)) whole (start-IsTimely t w bq fits h.sound))
          h.sound.settled (rising t)
          (subst (All (λ b. b.tid ≡ t)) whole (All-mono bq (λ b f. f.0) fits)) h.nearest in
      record {
        sound = settle-IsSound now t w bq e h.sound;
        nearest =
            subst (λ q. All (IsNearest queues) (drain now q (start t w)).1.ret) (sym whole) nearest;
        apart = h.apart.1;
        untouched = settle-untouched t ts w (drain now bq (start t w)) h.apart.0 h.untouched.1;
      }

  untouched-all : (ts : List ℕ) → All (λ t. queue t s.bpf_events ≡ queues t) ts
  untouched-all [] = tt
  untouched-all (t ∷ ts) = (refl, untouched-all ts)

  -- If in each queue the times of the BPF events rise, a sweep of a valid stream ends, and for no pair that it
  -- returns does the queue of the thread of the pair's BPF event have an event, reported or not, strictly
  -- between the times of the two of the pair.
  pub sweep_all-IsNearest :
      (now : ℕ)
      → IsValid s
      → ((k : ℕ) → IsRising (queues k))
      → (w : Swept) × (sweep_all now s ≡ some w) × All (IsNearest queues) w.ret
  sweep_all-IsNearest now v rising =
      let (w, done, h) =
        sweep_all_rule IsNear now (settle-IsNear rising now) s v.bpf_valid.distinct (record {
          sound = record { valid = v; windows = tt; settled = tt };
          nearest = tt;
          apart = v.bpf_valid.distinct;
          untouched = untouched-all (keys s.bpf_events);
        }) in
      (w, done, h.nearest)
