-- ===== src/Bindings/Structs/Fpstate.antt =====
-- The bit-fields of `fpstate` (jbm-ebpf/src/vmlinux.rs).
use jbm.Prelude.{[], ◌∷◌}
use jbm.Bindings.Layout.{BitField, bit_field, Layout}

abbrev pub is_valloc : BitField
is_valloc = bit_field 0 1 32

abbrev pub is_guest : BitField
is_guest = bit_field 1 1 32

abbrev pub is_confidential : BitField
is_confidential = bit_field 2 1 32

abbrev pub in_use : BitField
in_use = bit_field 3 1 32

abbrev pub bitfield_1 : Layout
bitfield_1 = record { bytes = 32; fields = is_valloc ∷ is_guest ∷ is_confidential ∷ in_use ∷ [] }
