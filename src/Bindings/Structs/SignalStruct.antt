-- ===== src/Bindings/Structs/SignalStruct.antt =====
-- The bit-fields of `signal_struct` (jbm-ebpf/src/vmlinux.rs).
use jbm.Prelude.{[], ◌∷◌}
use jbm.Bindings.Layout.{BitField, bit_field, Layout}

abbrev pub is_child_subreaper : BitField
is_child_subreaper = bit_field 0 1 32

abbrev pub has_child_subreaper : BitField
has_child_subreaper = bit_field 1 1 32

abbrev pub bitfield_1 : Layout
bitfield_1 = record { bytes = 1; fields = is_child_subreaper ∷ has_child_subreaper ∷ [] }
