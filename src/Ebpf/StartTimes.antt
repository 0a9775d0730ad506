-- ===== src/Ebpf/StartTimes.antt =====
-- The interface of the BPF hash map START_TIMES, which the kernel implements. A failed call leaves the
-- map as it was; `insert` may fail, as it does with E2BIG on a full map.
use jbm.Prelude.{ℕ, ◌≡◌, Option, none, some, Result, ok, ◌==◌, if◌then◌else◌}

pub record StartTimes : Type 1 where
  pub Map : Type 0
  pub get : ℕ → Map → Option ℕ
  pub insert : ℕ → ℕ → Map → Result Map ℕ
  pub remove : ℕ → Map → Result Map ℕ
  pub get-insert :
      (j k v : ℕ) (m : Map) {m' : Map}
      → insert k v m ≡ ok m'
      → get j m' ≡ (if k == j then some v else get j m)
  pub get-remove :
      (j k : ℕ) (m : Map) {m' : Map}
      → remove k m ≡ ok m'
      → get j m' ≡ (if k == j then none else get j m)
  pub remove_present :
      (k : ℕ) (m : Map) {v : ℕ} → get k m ≡ some v → (m' : Map) × (remove k m ≡ ok m')
