-- ===== src/Bindings/Structs/DescStruct.antt =====
-- The bit-fields of `desc_struct` (jbm-ebpf/src/vmlinux.rs).
use jbm.Prelude.{[], ◌∷◌}
use jbm.Bindings.Layout.{BitField, bit_field, Layout}

abbrev pub base1 : BitField
base1 = bit_field 0 8 16

abbrev pub type_ : BitField
type_ = bit_field 8 4 16

abbrev pub s : BitField
s = bit_field 12 1 16

abbrev pub dpl : BitField
dpl = bit_field 13 2 16

abbrev pub p : BitField
p = bit_field 15 1 16

abbrev pub limit1 : BitField
limit1 = bit_field 16 4 16

abbrev pub avl : BitField
avl = bit_field 20 1 16

abbrev pub l : BitField
l = bit_field 21 1 16

abbrev pub d : BitField
d = bit_field 22 1 16

abbrev pub g : BitField
g = bit_field 23 1 16

abbrev pub base2 : BitField
base2 = bit_field 24 8 16

abbrev pub bitfield_1 : Layout
bitfield_1 = record {
  bytes = 4;
  fields = base1 ∷ type_ ∷ s ∷ dpl ∷ p ∷ limit1 ∷ avl ∷ l ∷ d ∷ g ∷ base2 ∷ [];
}
