-- ===== src/Bindings/Structs/DevicePrivate.antt =====
-- The bit-fields of `device_private` (jbm-ebpf/src/vmlinux.rs).
use jbm.Prelude.{[], ◌∷◌}
use jbm.Bindings.Layout.{BitField, bit_field, Layout}

abbrev pub dead : BitField
dead = bit_field 0 1 8

abbrev pub bitfield_1 : Layout
bitfield_1 = record { bytes = 1; fields = dead ∷ [] }
