-- ===== src/Bindings/Structs/X86MsiData.antt =====
-- The bit-fields of `x86_msi_data` (jbm-ebpf/src/vmlinux.rs).
use jbm.Prelude.{[], ◌∷◌}
use jbm.Bindings.Layout.{BitField, bit_field, Layout}

abbrev pub vector : BitField
vector = bit_field 0 8 32

abbrev pub delivery_mode : BitField
delivery_mode = bit_field 8 3 32

abbrev pub dest_mode_logical : BitField
dest_mode_logical = bit_field 11 1 32

abbrev pub reserved : BitField
reserved = bit_field 12 2 32

abbrev pub active_low : BitField
active_low = bit_field 14 1 32

abbrev pub is_level : BitField
is_level = bit_field 15 1 32

abbrev pub bitfield_1 : Layout
bitfield_1 = record {
  bytes = 2;
  fields = vector ∷ delivery_mode ∷ dest_mode_logical ∷ reserved ∷ active_low ∷ is_level ∷ [];
}
