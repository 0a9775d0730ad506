-- ===== src/Bindings/Structs/CpuidleDriver.antt =====
-- The bit-fields of `cpuidle_driver___2` (jbm-ebpf/src/vmlinux.rs).
use jbm.Prelude.{[], ◌∷◌}
use jbm.Bindings.Layout.{BitField, bit_field, Layout}

abbrev pub bctimer : BitField
bctimer = bit_field 0 1 32

abbrev pub bitfield_1 : Layout
bitfield_1 = record { bytes = 1; fields = bctimer ∷ [] }
