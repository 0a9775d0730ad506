-- ===== src/Bindings/Structs/IoapicAllocInfo.antt =====
-- The bit-fields of `ioapic_alloc_info` (jbm-ebpf/src/vmlinux.rs).
use jbm.Prelude.{[], ◌∷◌}
use jbm.Bindings.Layout.{BitField, bit_field, Layout}

abbrev pub trigger : BitField
trigger = bit_field 0 1 32

abbrev pub polarity : BitField
polarity = bit_field 1 1 32

abbrev pub valid : BitField
valid = bit_field 2 1 32

abbrev pub bitfield_1 : Layout
bitfield_1 = record { bytes = 1; fields = trigger ∷ polarity ∷ valid ∷ [] }
