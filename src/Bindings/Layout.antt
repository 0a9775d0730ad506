-- ===== src/Bindings/Layout.antt =====
-- The accessors of bit-fields that bindgen writes for a struct (jbm-ebpf/src/vmlinux.rs): for each field
-- `x` a getter `x`, a setter `set_x`, and for each unit a constructor `new_bitfield_n`.
pub mod Laws
use jbm.Prelude.{
  ℕ, zero, suc, ◌+◌, ◌*◌, ◌%◌, ◌^◌, Bool, true, ◌&&◌, List, [], ◌∷◌, Option, none, some, leb,
}
use jbm.Bindings.BitfieldUnit.{◌>>=◌, get, set_unit}

-- What the accessors pass on: the bits of the unit, and the size of the integer type in bits.
pub record BitField : Type 0 where
  pub offset : ℕ
  pub width : ℕ
  pub size : ℕ

abbrev pub bit_field : ℕ → ℕ → ℕ → BitField
bit_field offset width size = record { offset = offset; width = width; size = size }

-- A unit: its bytes, and the fields in the order of the constructor's arguments.
pub record Layout : Type 0 where
  pub bytes : ℕ
  pub fields : List BitField

abbrev pub zeros : ℕ → List ℕ
zeros zero = []
zeros (suc n) = 0 ∷ zeros n

module _ (big : Bool) where
  -- `transmute(unit.get(offset, width) as T)`
  unfoldable pub get_field : List ℕ → BitField → Option ℕ
  get_field unit f = do val ← get big unit f.offset f.width; some (val % 2 ^ f.size)

  -- `unit.set(offset, width, val as u64)`
  unfoldable pub set_field : List ℕ → BitField → ℕ → Option (List ℕ)
  set_field unit f val = set_unit big unit f.offset f.width val

  unfoldable pub set_all : List (BitField × ℕ) → List ℕ → Option (List ℕ)
  set_all [] unit = some unit
  set_all ((f, val) ∷ args) unit = do unit' ← set_field unit f val; set_all args unit'

  -- `new_bitfield_n`, from `Default::default()`.
  unfoldable pub new_bitfield : ℕ → List (BitField × ℕ) → Option (List ℕ)
  new_bitfield bytes args = set_all args (zeros bytes)

-- Fields one after the other, from a bit on: each fits its integer type and the unit.
unfoldable pub fit : ℕ → ℕ → List BitField → Bool
fit start end [] = true
fit start end (f ∷ fs) =
    leb start f.offset
    && leb (f.offset + f.width) end
    && leb f.width f.size
    && leb f.size 64
    && fit (f.offset + f.width) end fs

abbrev pub is_sound : Layout → Bool
is_sound l = fit 0 (8 * l.bytes) l.fields
