-- ===== src/HashMap/Entries.antt =====
-- Invariants of a map: distinct keys, and a predicate that each entry satisfies.
use jbm.Prelude.{
  ℕ, ◌≡◌, ◌≢◌, refl, List, [], ◌∷◌, ◌++◌, none, some, arith, All, ◌⊎◌, inl, inr, Bool-cases, ◌==◌,
  ==_iff, All-mono, subst, sym, All-append,
}
use jbm.HashMap.{HashMap, get, insert, remove, keys, queue, push_back, store}

abbrev pub Distinct : List ℕ → Type 0
Distinct [] = Unit {0}
Distinct (k ∷ ks) = All (λ j. j ≢ k) ks × Distinct ks

-- The key is in the list.
abbrev pub Among : ℕ → List ℕ → Type 0
Among k [] = ⊥
Among k (j ∷ ks) = (j ≡ k) ⊎ Among k ks

pub Among-of_get {ℓ} :
    {V : Type ℓ} (k : ℕ) (m : HashMap V) {v : V} → get k m ≡ some v → Among k (keys m)
unfolding get
Among-of_get k [] e = cc
Among-of_get k ((j, w) ∷ m) {v} e = elim (Bool-cases (j == k)) [
  | inl hit ↦ inl ((==_iff j k).0 hit)
  | inr miss ↦ inr (Among-of_get k m {v = v} (ground arith))
]

not-none {ℓ} :
    {V : Type ℓ} (k j : ℕ) (v : V) (m : HashMap V) → get k m ≢ none → get k ((j, v) ∷ m) ≢ none
unfolding get
not-none k j v m h = ground arith

-- Every key of the list is in the map.
pub All-present {ℓ} : {V : Type ℓ} (m : HashMap V) → All (λ k. get k m ≢ none) (keys m)
unfolding get
All-present [] = tt
All-present ((j, v) ∷ m) = (
  (λ e. ground (arith, ==_iff j j)),
  All-mono (keys m) (λ k h. not-none k j v m h) (All-present m),
)

module _ {ℓ} {V : Type ℓ} where
  pub insert-All_ne :
      (j k : ℕ) (v : V) (m : HashMap V)
      → k ≢ j
      → All (λ i. i ≢ j) (keys m)
      → All (λ i. i ≢ j) (keys (insert k v m))
  unfolding insert
  insert-All_ne j k v [] h a = (h, tt)
  insert-All_ne j k v ((i, w) ∷ m) h a = ground (arith, insert-All_ne j k v m h a.1)

  pub remove-All_ne :
      (j k : ℕ) (m : HashMap V) → All (λ i. i ≢ j) (keys m) → All (λ i. i ≢ j) (keys (remove k m))
  unfolding remove
  remove-All_ne j k [] a = tt
  remove-All_ne j k ((i, w) ∷ m) a = ground (arith, remove-All_ne j k m a.1)

  pub insert-Distinct :
      (k : ℕ) (v : V) (m : HashMap V) → Distinct (keys m) → Distinct (keys (insert k v m))
  unfolding insert
  insert-Distinct k v [] d = (tt, tt)
  insert-Distinct k v ((i, w) ∷ m) d = elim (Bool-cases (i == k)) [
    | inl hit ↦
        ground (arith, subst (λ (n : ℕ). All (λ x. x ≢ n) (keys m)) ((==_iff i k).0 hit) d.0)
    | inr miss ↦ ground (arith, insert-All_ne i k v m, insert-Distinct k v m d.1)
  ]

  pub remove-Distinct : (k : ℕ) (m : HashMap V) → Distinct (keys m) → Distinct (keys (remove k m))
  unfolding remove
  remove-Distinct k [] d = tt
  remove-Distinct k ((i, w) ∷ m) d =
      ground (arith, remove-All_ne i k m d.0, remove-Distinct k m d.1)

module _ {ℓ} {A : Type ℓ} where
  snoc-ne-nil : (p : List A) (x : A) → p ++ (x ∷ []) ≢ []
  snoc-ne-nil [] x e = cc
  snoc-ne-nil (y ∷ p) x e = cc

  push_back-All_ne :
      (j k : ℕ) (x : A) (m : HashMap (List A))
      → k ≢ j
      → All (λ i. i ≢ j) (keys m)
      → All (λ i. i ≢ j) (keys (push_back k x m))
  unfolding push_back
  push_back-All_ne j k x [] h a = (h, tt)
  push_back-All_ne j k x ((i, p) ∷ m) h a = ground (arith, push_back-All_ne j k x m h a.1)

  push_back-Distinct :
      (k : ℕ) (x : A) (m : HashMap (List A)) → Distinct (keys m) → Distinct (keys (push_back k x m))
  unfolding push_back
  push_back-Distinct k x [] d = (tt, tt)
  push_back-Distinct k x ((i, p) ∷ m) d =
      ground (arith, push_back-All_ne i k x m, push_back-Distinct k x m d.1)

-- A map of queues: distinct keys, no queue empty, and every element in relation to its key.
module _ {ℓ κ} {A : Type ℓ} (R : ℕ → A → Type κ) where
  abbrev pub Entries : HashMap (List A) → Type (ℓ ⊔ κ)
  Entries = All (λ e. (e.1 ≢ []) × All (R e.0) e.1)

  pub record IsQueueMap (m : HashMap (List A)) : Type (ℓ ⊔ κ) where
    pub distinct : Distinct (keys m)
    pub entries : Entries m

  queue-Entries : (k : ℕ) (m : HashMap (List A)) → Entries m → All (R k) (queue k m)
  unfolding get
  queue-Entries k [] h = tt
  queue-Entries k ((j, q) ∷ m) h = elim (Bool-cases (j == k)) [
    | inl hit ↦
        subst (λ (n : ℕ). All (R n) (queue n ((j, q) ∷ m))) ((==_iff j k).0 hit)
          (rw ((==_iff j j).1 refl) h.0.1)
    | inr miss ↦ rw miss (queue-Entries k m h.1)
  ]

  insert-Entries :
      (k : ℕ) (q : List A) (m : HashMap (List A))
      → q ≢ []
      → All (R k) q
      → Entries m
      → Entries (insert k q m)
  unfolding insert
  insert-Entries k q [] n r h = ((n, r), tt)
  insert-Entries k q ((j, p) ∷ m) n r h = ground (arith, insert-Entries k q m n r h.1)

  remove-Entries : (k : ℕ) (m : HashMap (List A)) → Entries m → Entries (remove k m)
  unfolding remove
  remove-Entries k [] h = tt
  remove-Entries k ((j, p) ∷ m) h = ground (arith, remove-Entries k m h.1)

  push_back-Entries :
      (k : ℕ) (x : A) (m : HashMap (List A)) → R k x → Entries m → Entries (push_back k x m)
  unfolding push_back
  push_back-Entries k x [] r h = (((λ e. cc), (r, tt)), tt)
  push_back-Entries k x ((j, p) ∷ m) r h = elim (Bool-cases (j == k)) [
    | inl hit ↦
        let own : R j x = subst (λ (n : ℕ). R n x) (sym ((==_iff j k).0 hit)) r in
        let longer : Entries ((j, p ++ (x ∷ [])) ∷ m) =
          ((snoc-ne-nil p x, All-append (R j) p (x ∷ []) (own, tt) h.0.1), h.1) in
        ground (arith, longer)
    | inr miss ↦ ground (arith, push_back-Entries k x m r h.1)
  ]

  pub queue-All : (k : ℕ) {m : HashMap (List A)} → IsQueueMap m → All (R k) (queue k m)
  queue-All k {m} h = queue-Entries k m h.entries

  -- Both operations on a queue keep such a map.
  pub push_back-IsQueueMap :
      (k : ℕ) (x : A) {m : HashMap (List A)} → R k x → IsQueueMap m → IsQueueMap (push_back k x m)
  push_back-IsQueueMap k x {m} r h = record {
    distinct = push_back-Distinct k x m h.distinct;
    entries = push_back-Entries k x m r h.entries;
  }

  pub store-IsQueueMap :
      (k : ℕ) (q : List A) {m : HashMap (List A)}
      → All (R k) q
      → IsQueueMap m
      → IsQueueMap (store k q m)
  unfolding store
  store-IsQueueMap k [] {m} r h = record {
    distinct = remove-Distinct k m h.distinct;
    entries = remove-Entries k m h.entries;
  }
  store-IsQueueMap k (x ∷ q) {m} r h = record {
    distinct = insert-Distinct k (x ∷ q) m h.distinct;
    entries = insert-Entries k (x ∷ q) m (λ e. cc) r h.entries;
  }
