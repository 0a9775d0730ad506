-- ===== src/Bindings/Structs/SwapClusterInfo.antt =====
-- The bit-fields of `swap_cluster_info` (jbm-ebpf/src/vmlinux.rs).
use jbm.Prelude.{[], ◌∷◌}
use jbm.Bindings.Layout.{BitField, bit_field, Layout}

abbrev pub field_data : BitField
field_data = bit_field 0 24 32

abbrev pub flags : BitField
flags = bit_field 24 8 32

abbrev pub bitfield_1 : Layout
bitfield_1 = record { bytes = 4; fields = field_data ∷ flags ∷ [] }
