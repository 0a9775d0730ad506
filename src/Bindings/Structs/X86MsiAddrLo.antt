-- ===== src/Bindings/Structs/X86MsiAddrLo.antt =====
-- The bit-fields of `x86_msi_addr_lo__bindgen_ty_1__bindgen_ty_1` (jbm-ebpf/src/vmlinux.rs).
use jbm.Prelude.{[], ◌∷◌}
use jbm.Bindings.Layout.{BitField, bit_field, Layout}

abbrev pub reserved_0 : BitField
reserved_0 = bit_field 0 2 32

abbrev pub dest_mode_logical : BitField
dest_mode_logical = bit_field 2 1 32

abbrev pub redirect_hint : BitField
redirect_hint = bit_field 3 1 32

abbrev pub reserved_1 : BitField
reserved_1 = bit_field 4 1 32

abbrev pub virt_destid_8_14 : BitField
virt_destid_8_14 = bit_field 5 7 32

abbrev pub destid_0_7 : BitField
destid_0_7 = bit_field 12 8 32

abbrev pub base_address : BitField
base_address = bit_field 20 12 32

abbrev pub bitfield_1 : Layout
bitfield_1 = record {
  bytes = 4;
  fields =
      reserved_0 ∷ dest_mode_logical ∷ redirect_hint ∷ reserved_1 ∷ virt_destid_8_14 ∷ destid_0_7
      ∷ base_address ∷ [];
}
