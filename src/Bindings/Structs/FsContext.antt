-- ===== src/Bindings/Structs/FsContext.antt =====
-- The bit-fields of `fs_context` (jbm-ebpf/src/vmlinux.rs).
use jbm.Prelude.{[], ◌∷◌}
use jbm.Bindings.Layout.{BitField, bit_field, Layout}

abbrev pub purpose : BitField
purpose = bit_field 0 8 32

abbrev pub phase : BitField
phase = bit_field 8 8 32

abbrev pub need_free : BitField
need_free = bit_field 16 1 8

abbrev pub global : BitField
global = bit_field 17 1 8

abbrev pub oldapi : BitField
oldapi = bit_field 18 1 8

abbrev pub bitfield_1 : Layout
bitfield_1 = record { bytes = 3; fields = purpose ∷ phase ∷ need_free ∷ global ∷ oldapi ∷ [] }
