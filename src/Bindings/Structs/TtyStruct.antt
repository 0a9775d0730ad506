-- ===== src/Bindings/Structs/TtyStruct.antt =====
-- The bit-fields of `tty_struct` (jbm-ebpf/src/vmlinux.rs).
use jbm.Prelude.{[], ◌∷◌}
use jbm.Bindings.Layout.{BitField, bit_field, Layout}

abbrev pub stopped : BitField
stopped = bit_field 0 1 64

abbrev pub flow_stopped : BitField
flow_stopped = bit_field 1 1 64

abbrev pub unused : BitField
unused = bit_field 64 62 64

abbrev pub ctrl_status : BitField
ctrl_status = bit_field 0 8 64

abbrev pub packet : BitField
packet = bit_field 8 1 64

abbrev pub unused_ctrl : BitField
unused_ctrl = bit_field 64 55 64

abbrev pub bitfield_1 : Layout
bitfield_1 = record { bytes = 16; fields = stopped ∷ flow_stopped ∷ unused ∷ [] }

abbrev pub bitfield_2 : Layout
bitfield_2 = record { bytes = 15; fields = ctrl_status ∷ packet ∷ unused_ctrl ∷ [] }
