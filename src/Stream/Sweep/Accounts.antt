-- ===== src/Stream/Sweep/Accounts.antt =====
-- A sweep loses no event, thread by thread.
use mathlib.Core.List.{filter, filter-append, append_assoc, append-nil, Perm}
use mathlib.Core.List.Perm
use native.Mathlib.Decide.{ℕ_discrete}
use jbm.Prelude.{
  ℕ, ◌≡◌, refl, ap, subst, ◌∙◌, List, [], ◌∷◌, ◌++◌, map, reverse, some, arith, All, All-mono,
  Bool-cases, ◌==◌, ==_iff, inl, inr, if◌then◌else◌,
}
use jbm.HashMap.{get, queue, queue-store}
use jbm.HashMap.Entries.{queue-All}
use jbm.Events.{JvmEvent, BpfEvent}
use jbm.Matching.Drain.{Sweeping, drain}
use jbm.Matching.Drain.Accounts.{matched, drain-bpf_account, drain-jvm_account}
use jbm.Stream.{EventStream, IsValid, JvmFits}
use jbm.Stream.Sweep.{Swept, start, settle, sweep_all}
use jbm.Stream.Sweep.Total.{sweep_all_rule}
use jbm.Stream.Sweep.Valid.{IsSound, settle-IsSound, queue_of_get, left-fits, front-fits}

module _ {A : Type 0} (key : A → ℕ) (k : ℕ) where
  -- The elements of one key, in their order.
  abbrev pub of_key : List A → List A
  of_key = filter (λ a. ℕ_discrete (key a) k)

  of_key-All : (t : ℕ) (q : List A) → All (λ a. key a ≡ t) q → t ≡ k → of_key q ≡ q
  unfolding ℕ_discrete
  of_key-All t [] h e = refl
  of_key-All t (a ∷ q) h e = ground (arith, of_key-All t q h.1 e)

  of_key-none : (t : ℕ) (q : List A) → All (λ a. key a ≡ t) q → ¬ (t ≡ k) → of_key q ≡ []
  of_key-none t [] h n = refl
  of_key-none t (a ∷ q) h n = ground (arith, of_key-none t q h.1 n)

  -- A queue of key `t` at the end counts where `t` is `k`.
  pub of_key-append :
      (t : ℕ) (x q : List A)
      → All (λ a. key a ≡ t) q
      → of_key (x ++ q) ≡ (if t == k then of_key x ++ q else of_key x)
  of_key-append t x q h = elim (Bool-cases (t == k)) [
    | inl hit ↦
        rw (hit, filter-append (λ a. ℕ_discrete (key a) k) x q)
          (rw (of_key-All t q h ((==_iff t k).0 hit)))
    | inr miss ↦
        rw (miss, filter-append (λ a. ℕ_discrete (key a) k) x q)
          (rw (of_key-none t q h (λ e. ground (arith, ==_iff t k))) (append-nil (of_key x)))
  ]

  -- From the accounts `x ++ q` and `x' ++ q'` of a step on the queue of `t`, where `c` and `c'` are the
  -- queues of `k` before and after, to the accounts of `k`.
  account_of_key :
      (R : List A → List A → Type 0)
      → ((xs ys zs : List A) → R xs ys → R (xs ++ zs) (ys ++ zs))
      → (t : ℕ) (x x' q q' c c' : List A) → All (λ a. key a ≡ t) q
      → All (λ a. key a ≡ t) q'
      → (t ≡ k → c ≡ q)
      → c' ≡ (if t == k then q' else c)
      → R (of_key (x' ++ q')) (of_key (x ++ q))
      → R (of_key x' ++ c') (of_key x ++ c)
  account_of_key R wider t x x' q q' c c' h h' before after r = elim (Bool-cases (t == k)) [
    | inl hit ↦
        let own : R (of_key x' ++ q') (of_key x ++ q) =
          rw (hit) at (rw (of_key-append t x q h, of_key-append t x' q' h') at r) in
        rw (after, hit, before ((==_iff t k).0 hit)) own
    | inr miss ↦
        let other : R (of_key x') (of_key x) =
          rw (miss) at (rw (of_key-append t x q h, of_key-append t x' q' h') at r) in
        rw (after, miss) (wider (of_key x') (of_key x) c other)
  ]

-- The BPF events of thread `k`: those reported, oldest first, and then its queue.
abbrev pub bpf_of : ℕ → Swept → List BpfEvent
bpf_of k w = of_key (λ b. b.tid) k (reverse (map (λ p. p.0) w.ret)) ++ queue k w.stream.bpf_events

-- The JVM events of thread `k`: trashed, matched, and waiting.
abbrev pub jvm_of : ℕ → Swept → List JvmEvent
jvm_of k w = of_key (λ j. j.tid) k (w.trashed ++ matched w.ret) ++ queue k w.stream.jvm_events

module _ (k now t : ℕ) (w : Swept) (bq : List BpfEvent) (e : get t w.stream.bpf_events ≡ some bq)
    (v : IsValid w.stream) where
  abbrev drained : List BpfEvent × Sweeping
  drained = drain now bq (start t w)

  settle-bpf_of : bpf_of k (settle t w drained) ≡ bpf_of k w
  settle-bpf_of =
      account_of_key (λ b. b.tid) k ◌≡◌ (λ xs ys zs p. ap (λ (l : List BpfEvent). l ++ zs) p) t
        (reverse (map (λ p. p.0) w.ret)) (reverse (map (λ p. p.0) drained.1.ret)) bq drained.0
        (queue k w.stream.bpf_events) (queue k (settle t w drained).stream.bpf_events)
        (All-mono bq (λ _ f. f.0) (front-fits t w bq e v))
        (All-mono drained.0 (λ _ f. f.0) (left-fits now t w bq e v).0)
        (λ same. subst (λ (n : ℕ). queue n w.stream.bpf_events ≡ bq) same (queue_of_get t w e))
        (queue-store k t drained.0 w.stream.bpf_events)
        (ap (of_key (λ b. b.tid) k) (drain-bpf_account now bq (start t w)))

  settle-jvm_of : Perm (jvm_of k (settle t w drained)) (jvm_of k w)
  settle-jvm_of =
      account_of_key (λ j. j.tid) k Perm (λ xs ys zs p. Perm.append_right zs p) t
        (w.trashed ++ matched w.ret) (drained.1.trashed ++ matched drained.1.ret)
        (queue t w.stream.jvm_events) drained.1.jvm_queue (queue k w.stream.jvm_events)
        (queue k (settle t w drained).stream.jvm_events)
        (All-mono (queue t w.stream.jvm_events) (λ _ f. f.0) (queue-All JvmFits t v.jvm_valid))
        (All-mono drained.1.jvm_queue (λ _ f. f.0) (left-fits now t w bq e v).1) (λ same. rw same)
        (queue-store k t drained.1.jvm_queue w.stream.jvm_events)
        (Perm.filter (λ j. ℕ_discrete j.tid k)
          (rw
            (
              append_assoc w.trashed (matched w.ret) (queue t w.stream.jvm_events),
              append_assoc drained.1.trashed (matched drained.1.ret) drained.1.jvm_queue,
            )
            (drain-jvm_account now bq (start t w))))

record Accounted (k : ℕ) (s : EventStream) (w : Swept) : Type 0 where
  sound : IsSound w
  bpf : bpf_of k w ≡ queue k s.bpf_events
  jvm : Perm (jvm_of k w) (queue k s.jvm_events)

-- A sweep of a valid stream ends, and for each thread: the reported BPF events of the thread, in the
-- order of the report, and its new queue make up its old queue, in the old order; and each JVM event
-- of its old queue is trashed, matched in one pair, or in its new queue, in one of the three and once.
pub sweep_all-accounts :
    (k now : ℕ) (s : EventStream)
    → IsValid s
    → (w : Swept) × (sweep_all now s ≡ some w)
      × (bpf_of k w ≡ queue k s.bpf_events)
      × Perm (jvm_of k w) (queue k s.jvm_events)
sweep_all-accounts k now s v =
    let (w, done, a) =
      sweep_all_rule (λ _ u. Accounted k s u) now
        (λ t ts u bq e a. record {
          sound = settle-IsSound now t u bq e a.sound;
          bpf = settle-bpf_of k now t u bq e a.sound.valid ∙ a.bpf;
          jvm = Perm.trans (settle-jvm_of k now t u bq e a.sound.valid) a.jvm;
        })
        s v.bpf_valid.distinct
        (record {
          sound = record { valid = v; windows = tt; settled = tt };
          bpf = refl;
          jvm = Perm.refl (queue k s.jvm_events);
        }) in
    (w, done, a.bpf, a.jvm)
