-- ===== src/Bindings/Structs/X86MsiAddrLoDmar.antt =====
-- The bit-fields of `x86_msi_addr_lo__bindgen_ty_1__bindgen_ty_2` (jbm-ebpf/src/vmlinux.rs).
use jbm.Prelude.{[], ◌∷◌}
use jbm.Bindings.Layout.{BitField, bit_field, Layout}

abbrev pub dmar_reserved_0 : BitField
dmar_reserved_0 = bit_field 0 2 32

abbrev pub dmar_index_15 : BitField
dmar_index_15 = bit_field 2 1 32

abbrev pub dmar_subhandle_valid : BitField
dmar_subhandle_valid = bit_field 3 1 32

abbrev pub dmar_format : BitField
dmar_format = bit_field 4 1 32

abbrev pub dmar_index_0_14 : BitField
dmar_index_0_14 = bit_field 5 15 32

abbrev pub dmar_base_address : BitField
dmar_base_address = bit_field 20 12 32

abbrev pub bitfield_1 : Layout
bitfield_1 = record {
  bytes = 4;
  fields =
      dmar_reserved_0 ∷ dmar_index_15 ∷ dmar_subhandle_valid ∷ dmar_format ∷ dmar_index_0_14
      ∷ dmar_base_address ∷ [];
}
