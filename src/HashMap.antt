-- ===== src/HashMap.antt =====
-- std::collections::HashMap with u32 keys, as an association list. The order of the list is the
-- iteration order, on which no theorem depends: they hold for every list.
pub mod Entries
use jbm.Prelude.{
  ℕ, ◌≡◌, refl, List, [], ◌∷◌, ◌++◌, map, Option, none, some, arith, ◌==◌, if◌then◌else◌, is_empty,
  ◌≢◌,
}

abbrev pub HashMap {ℓ} : Type ℓ → Type ℓ
HashMap V = List (ℕ × V)

module _ {ℓ} {V : Type ℓ} where
  unfoldable pub get : ℕ → HashMap V → Option V
  get k [] = none
  get k ((j, v) ∷ m) = if j == k then some v else get k m

  unfoldable pub insert : ℕ → V → HashMap V → HashMap V
  insert k new [] = (k, new) ∷ []
  insert k new ((j, old) ∷ rest) =
      let later = insert k new rest in if j == k then (k, new) ∷ rest else (j, old) ∷ later

  unfoldable pub remove : ℕ → HashMap V → HashMap V
  remove k [] = []
  remove k ((j, w) ∷ m) = if j == k then remove k m else (j, w) ∷ remove k m

  abbrev pub keys : HashMap V → List ℕ
  keys m = map (λ e. e.0) m

  pub get-insert :
      (j k : ℕ) (v : V) (m : HashMap V)
      → get j (insert k v m) ≡ (if k == j then some v else get j m)
  unfolding get insert
  get-insert j k v [] = refl
  get-insert j k v ((i, w) ∷ m) = ground (arith, get-insert j k v m)

  pub get-remove :
      (j k : ℕ) (m : HashMap V) → get j (remove k m) ≡ (if k == j then none else get j m)
  unfolding get remove
  get-remove j k [] = ground arith
  get-remove j k ((i, w) ∷ m) = ground (arith, get-remove j k m)

-- A map from thread ids to queues, of which only the queues that are there are stored.
module _ {ℓ} {A : Type ℓ} where
  abbrev or_empty : Option (List A) → List A
  or_empty none = []
  or_empty (some q) = q

  -- The queue of a key, empty if the key is missing.
  abbrev pub queue : ℕ → HashMap (List A) → List A
  queue k m = or_empty (get k m)

  -- `entry(k).or_insert_with(VecDeque::new).push_back(x)`
  unfoldable pub push_back : ℕ → A → HashMap (List A) → HashMap (List A)
  push_back k x [] = (k, x ∷ []) ∷ []
  push_back k x ((j, q) ∷ m) = if j == k then (j, q ++ (x ∷ [])) ∷ m else (j, q) ∷ push_back k x m

  pub queue-push_back :
      (j k : ℕ) (x : A) (m : HashMap (List A))
      → queue j (push_back k x m) ≡ (if k == j then queue j m ++ (x ∷ []) else queue j m)
  unfolding get push_back
  queue-push_back j k x [] = ground arith
  queue-push_back j k x ((i, q) ∷ m) = ground (arith, queue-push_back j k x m)

  -- What becomes of a queue that was taken by `get_mut`, when an empty one is removed.
  unfoldable pub store : ℕ → List A → HashMap (List A) → HashMap (List A)
  store k q m = if is_empty q then remove k m else insert k q m

  pub queue-store :
      (j k : ℕ) (q : List A) (m : HashMap (List A))
      → queue j (store k q m) ≡ (if k == j then q else queue j m)
  unfolding store
  queue-store j k [] m = ground (arith, get-remove j k m)
  queue-store j k (x ∷ q) m = ground (arith, get-insert j k (x ∷ q) m)

  pub get-store_ne :
      (j k : ℕ) (q : List A) (m : HashMap (List A)) → k ≢ j → get j (store k q m) ≡ get j m
  unfolding store
  get-store_ne j k [] m h = ground (arith, get-remove j k m)
  get-store_ne j k (x ∷ q) m h = ground (arith, get-insert j k (x ∷ q) m)
