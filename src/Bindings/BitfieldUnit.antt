-- ===== src/Bindings/BitfieldUnit.antt =====
-- `__BindgenBitfieldUnit` (jbm-ebpf/src/vmlinux.rs): bit-fields in a sequence of bytes. An index out of
-- bounds panics, which is `none`. `big` is `cfg!(target_endian = "big")`, for both BPF targets.
pub mod Bit
pub mod Span
pub mod RoundTrip
use Prim.Native.Nat.{bit_and, bit_or}
use jbm.Prelude.{
  ℕ, zero, suc, ◌+◌, ◌-◌, ◌/◌, ◌%◌, ◌^◌, Bool, true, false, List, [], ◌∷◌, Option, none, some,
  get_elem?, set, ◌==◌, if◌then◌else◌,
}

infixl 5 ◌>>=◌
abbrev pub ◌>>=◌ {ℓ κ} : {A : Type ℓ} {B : Type κ} → Option A → (A → Option B) → Option B
none >>= f = none
some a >>= f = f a

-- `1 << index` of a u64, whose shift goes by the index modulo 64.
abbrev pub shl64 : ℕ → ℕ
shl64 index = 2 ^ (index % 64)

module _ (big : Bool) where
  -- Where a bit stands in its byte.
  abbrev pub bit_index : ℕ → ℕ
  bit_index index = if big then 7 - index % 8 else index % 8

  unfoldable pub get_bit : List ℕ → ℕ → Option Bool
  get_bit storage index = do
    byte ← get_elem? storage (index / 8)
    let mask = 2 ^ bit_index index
    some (bit_and byte mask == mask)

  unfoldable pub set_bit : List ℕ → ℕ → Bool → Option (List ℕ)
  set_bit storage index val = do
    byte ← get_elem? storage (index / 8)
    let mask = 2 ^ bit_index index
    some (set storage (index / 8) (if val then bit_or byte mask else bit_and byte (255 - mask)))

  -- Which bit of the number stands at place `i` of its field.
  abbrev pub place : ℕ → ℕ → ℕ
  place bit_width i = if big then bit_width - 1 - i else i

  -- The loop of `get`, with `n` rounds to go.
  unfoldable pub get_loop : List ℕ → ℕ → ℕ → ℕ → ℕ → ℕ → Option ℕ
  get_loop storage bit_offset bit_width zero i val = some val
  get_loop storage bit_offset bit_width (suc n) i val = do
    is_set ← get_bit storage (i + bit_offset)
    get_loop storage bit_offset bit_width n (suc i)
        (if is_set then bit_or val (shl64 (place bit_width i)) else val)

  unfoldable pub get : List ℕ → ℕ → ℕ → Option ℕ
  get storage bit_offset bit_width = get_loop storage bit_offset bit_width bit_width 0 0

  -- The loop of `set`, with `n` rounds to go.
  unfoldable pub set_loop : ℕ → ℕ → ℕ → ℕ → ℕ → List ℕ → Option (List ℕ)
  set_loop bit_offset bit_width val zero i storage = some storage
  set_loop bit_offset bit_width val (suc n) i storage = do
    storage' ← set_bit storage (place bit_width i + bit_offset) (bit_and val (shl64 i) == shl64 i)
    set_loop bit_offset bit_width val n (suc i) storage'

  unfoldable pub set_unit : List ℕ → ℕ → ℕ → ℕ → Option (List ℕ)
  set_unit storage bit_offset bit_width val = set_loop bit_offset bit_width val bit_width 0 storage
