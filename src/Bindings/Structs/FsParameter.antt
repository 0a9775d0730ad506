-- ===== src/Bindings/Structs/FsParameter.antt =====
-- The bit-fields of `fs_parameter` (jbm-ebpf/src/vmlinux.rs).
use jbm.Prelude.{[], ◌∷◌}
use jbm.Bindings.Layout.{BitField, bit_field, Layout}

abbrev pub type_ : BitField
type_ = bit_field 0 8 32

abbrev pub bitfield_1 : Layout
bitfield_1 = record { bytes = 1; fields = type_ ∷ [] }
