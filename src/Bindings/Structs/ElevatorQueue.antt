-- ===== src/Bindings/Structs/ElevatorQueue.antt =====
-- The bit-fields of `elevator_queue` (jbm-ebpf/src/vmlinux.rs).
use jbm.Prelude.{[], ◌∷◌}
use jbm.Bindings.Layout.{BitField, bit_field, Layout}

abbrev pub registered : BitField
registered = bit_field 0 1 32

abbrev pub bitfield_1 : Layout
bitfield_1 = record { bytes = 1; fields = registered ∷ [] }
