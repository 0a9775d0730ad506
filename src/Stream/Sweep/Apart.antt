-- ===== src/Stream/Sweep/Apart.antt =====
-- A sweep (jbm/src/lib.rs) of blocks that do not overlap.
use mathlib.Core.List.{append_assoc, append-nil, reverse-reverse}
use jbm.Prelude.{
  ℕ, ◌≡◌, ◌≢◌, refl, ap, ◌∙◌, List, [], ◌∷◌, ◌++◌, map, reverse, Option, some, All, arith,
}
use jbm.Events.{JvmEvent, BpfEvent, Pair}
use jbm.HashMap.{HashMap, get, queue, keys, remove, store}
use jbm.HashMap.Entries.{Distinct}
use jbm.Stream.{EventStream}
use jbm.Stream.Sweep.{Swept, settle, sweep_tids, sweep_all, oldest_first, sweep}
use jbm.Stream.Sweep.Total.{sweep_tids-step}
use jbm.Matching.Drain.{drain}
use jbm.Matching.Drain.Apart.{
  Block, pair_of, reverse_append, stale_of-append, AreApart-parts, bpf_queue_of, jvm_queue_of,
  stale_of, AreApart, drain-blocks,
}

-- The blocks that wait, for each thread.
abbrev pub bpf_map : List (ℕ × List Block) → HashMap (List BpfEvent)
bpf_map threads = map (λ t. (t.0, bpf_queue_of t.1)) threads

abbrev pub jvm_map : List (ℕ × List Block) → HashMap (List JvmEvent)
jvm_map threads = map (λ t. (t.0, jvm_queue_of t.1)) threads

abbrev pub stream_of : ℕ → List (ℕ × List Block) → EventStream
stream_of count threads = record {
  bpf_events = bpf_map threads;
  event_count = count;
  jvm_events = jvm_map threads;
}

abbrev pub all_blocks : List (ℕ × List Block) → List Block
all_blocks [] = []
all_blocks (t ∷ threads) = t.1 ++ all_blocks threads

module _ {ℓ} {V : Type ℓ} where
  pub get-head : (k : ℕ) (v : V) (m : HashMap V) → get k ((k, v) ∷ m) ≡ some v
  unfolding get
  get-head k v m = ground arith

  remove-absent : (k : ℕ) (m : HashMap V) → All (λ j. j ≢ k) (keys m) → remove k m ≡ m
  unfolding remove
  remove-absent k [] h = refl
  remove-absent k ((j, v) ∷ m) h = ground (arith, remove-absent k m h.1)

  pub remove-head :
      (k : ℕ) (v : V) (m : HashMap V) → All (λ j. j ≢ k) (keys m) → remove k ((k, v) ∷ m) ≡ m
  unfolding remove
  remove-head k v m h = ground (arith, remove-absent k m h)

pub queue-head {ℓ} :
    {A : Type ℓ} (k : ℕ) (q : List A) (m : HashMap (List A)) → queue k ((k, q) ∷ m) ≡ q
unfolding get
queue-head k q m = ground arith

keys-bpf_map : (threads : List (ℕ × List Block)) → keys (bpf_map threads) ≡ map (λ t. t.0) threads
keys-bpf_map [] = refl
keys-bpf_map (t ∷ threads) = ap (λ ks. t.0 ∷ ks) (keys-bpf_map threads)

keys-jvm_map : (threads : List (ℕ × List Block)) → keys (jvm_map threads) ≡ map (λ t. t.0) threads
keys-jvm_map [] = refl
keys-jvm_map (t ∷ threads) = ap (λ ks. t.0 ∷ ks) (keys-jvm_map threads)

module _ (now count : ℕ) where
  abbrev swept : List (ℕ × List Block) → List Pair → List JvmEvent → Swept
  swept threads ret trashed = record {
    stream = stream_of count threads;
    ret = ret;
    trashed = trashed;
  }

  -- The loop over one thread, which is the first of those left.
  sweep_tids-blocks :
      (k : ℕ) (bs : List Block) (threads : List (ℕ × List Block)) (tids : List ℕ) (ret : List Pair)
      (trashed : List JvmEvent)
      → All (λ j. j ≢ k) (map (λ t. t.0) threads)
      → AreApart ret bs
      → sweep_tids now (k ∷ tids) (swept ((k, bs) ∷ threads) ret trashed)
        ≡ sweep_tids now tids
            (swept threads (reverse (map pair_of bs) ++ ret) (trashed ++ stale_of bs))
  unfolding store
  sweep_tids-blocks k bs threads tids ret trashed others apart =
      let w = swept ((k, bs) ∷ threads) ret trashed in
      let bpf_left : remove k (bpf_map ((k, bs) ∷ threads)) ≡ bpf_map threads =
        remove-head k (bpf_queue_of bs) (bpf_map threads) (rw (keys-bpf_map threads) others) in
      let jvm_left : remove k (jvm_map ((k, bs) ∷ threads)) ≡ jvm_map threads =
        remove-head k (jvm_queue_of bs) (jvm_map threads) (rw (keys-jvm_map threads) others) in
      let left : HashMap (List BpfEvent) → HashMap (List JvmEvent) → Option Swept = λ bpf jvm.
        sweep_tids now tids (record {
          stream = record { bpf_events = bpf; event_count = count; jvm_events = jvm };
          ret = reverse (map pair_of bs) ++ ret;
          trashed = trashed ++ stale_of bs;
        }) in
      sweep_tids-step now k tids w (get-head k (bpf_queue_of bs) (bpf_map threads))
      ∙ ap
          (λ js. sweep_tids now tids (
            settle k w (
              drain now (bpf_queue_of bs)
                (record { jvm_queue = js; ret = ret; trashed = trashed }))))
          (queue-head k (jvm_queue_of bs) (jvm_map threads))
      ∙ ap (λ d. sweep_tids now tids (settle k w d)) (drain-blocks now bs ret trashed apart)
      ∙ ap (λ m. left m (remove k (jvm_map ((k, bs) ∷ threads)))) bpf_left
      ∙ ap (left (bpf_map threads)) jvm_left

  sweep_tids-all :
      (threads : List (ℕ × List Block)) (ret : List Pair) (trashed : List JvmEvent)
      → Distinct (map (λ t. t.0) threads)
      → AreApart ret (all_blocks threads)
      → sweep_tids now (map (λ t. t.0) threads) (swept threads ret trashed)
        ≡ some (
            swept []
              (reverse (map pair_of (all_blocks threads)) ++ ret)
              (trashed ++ stale_of (all_blocks threads)))
  unfolding sweep_tids
  sweep_tids-all [] ret trashed d h = rw (append-nil trashed) refl
  sweep_tids-all ((k, bs) ∷ threads) ret trashed d h =
      let (front, back) = AreApart-parts bs (all_blocks threads) ret h in
      sweep_tids-blocks k bs threads (map (λ t. t.0) threads) ret trashed d.0 front
      ∙ sweep_tids-all threads (reverse (map pair_of bs) ++ ret) (trashed ++ stale_of bs) d.1 back
      ∙ rw
          (
            reverse_append bs (all_blocks threads) ret,
            append_assoc trashed (stale_of bs) (stale_of (all_blocks threads)),
            stale_of-append bs (all_blocks threads),
          )
          refl

  -- When the JVM events that wait are, for each block in the order of the sweep, older ones and then one in
  -- the window of its BPF event, and no block begins before the JVM event of the block swept before it, then a
  -- sweep reports each block with its own JVM event, in order, whatever the time, trashes exactly the older
  -- ones, and leaves nothing waiting.
  pub sweep_all-blocks :
      (threads : List (ℕ × List Block))
      → Distinct (map (λ t. t.0) threads)
      → AreApart [] (all_blocks threads)
      → (sweep now (stream_of count threads)
          ≡ some (stream_of count [], map pair_of (all_blocks threads)))
        × (sweep_all now (stream_of count threads)
            ≡ some (
                swept []
                  (reverse (map pair_of (all_blocks threads)))
                  (stale_of (all_blocks threads))))
  unfolding sweep sweep_all
  sweep_all-blocks threads d h =
      let whole : sweep_all now (stream_of count threads)
          ≡ some (
              swept [] (reverse (map pair_of (all_blocks threads)))
                (stale_of (all_blocks threads))) =
        ap (λ ks. sweep_tids now ks (swept threads [] [])) (keys-bpf_map threads)
        ∙ sweep_tids-all threads [] [] d h
        ∙ rw (append-nil (reverse (map pair_of (all_blocks threads)))) refl in
      (
        ap oldest_first whole
            ∙ ap (λ l. some (stream_of count [], l))
                (reverse-reverse (map pair_of (all_blocks threads))),
        whole,
      )
