-- ===== src/Bindings/Structs/KernfsOpenFile.antt =====
-- The bit-fields of `kernfs_open_file` (jbm-ebpf/src/vmlinux.rs).
use jbm.Prelude.{[], ◌∷◌}
use jbm.Bindings.Layout.{BitField, bit_field, Layout}

abbrev pub mmapped : BitField
mmapped = bit_field 0 1 8

abbrev pub released : BitField
released = bit_field 1 1 8

abbrev pub bitfield_1 : Layout
bitfield_1 = record { bytes = 1; fields = mmapped ∷ released ∷ [] }
