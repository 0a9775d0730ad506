-- ===== src/Bindings/Structs/TaskStructRh.antt =====
-- The bit-fields of `task_struct_rh` (jbm-ebpf/src/vmlinux.rs).
use jbm.Prelude.{[], ◌∷◌}
use jbm.Bindings.Layout.{BitField, bit_field, Layout}

abbrev pub mce_ripv : BitField
mce_ripv = bit_field 0 1 64

abbrev pub mce_whole_page : BitField
mce_whole_page = bit_field 1 1 64

abbrev pub mce_reserved : BitField
mce_reserved = bit_field 2 62 64

abbrev pub bitfield_1 : Layout
bitfield_1 = record { bytes = 8; fields = mce_ripv ∷ mce_whole_page ∷ mce_reserved ∷ [] }
