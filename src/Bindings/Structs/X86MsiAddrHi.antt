-- ===== src/Bindings/Structs/X86MsiAddrHi.antt =====
-- The bit-fields of `x86_msi_addr_hi` (jbm-ebpf/src/vmlinux.rs).
use jbm.Prelude.{[], ◌∷◌}
use jbm.Bindings.Layout.{BitField, bit_field, Layout}

abbrev pub reserved : BitField
reserved = bit_field 0 8 32

abbrev pub destid_8_31 : BitField
destid_8_31 = bit_field 8 24 32

abbrev pub bitfield_1 : Layout
bitfield_1 = record { bytes = 4; fields = reserved ∷ destid_8_31 ∷ [] }
