-- ===== src/Bindings/Structs/DevlinkPort.antt =====
-- The bit-fields of `devlink_port` (jbm-ebpf/src/vmlinux.rs).
use jbm.Prelude.{[], ◌∷◌}
use jbm.Bindings.Layout.{BitField, bit_field, Layout}

abbrev pub attrs_set : BitField
attrs_set = bit_field 0 1 8

abbrev pub switch_port : BitField
switch_port = bit_field 1 1 8

abbrev pub bitfield_1 : Layout
bitfield_1 = record { bytes = 1; fields = attrs_set ∷ switch_port ∷ [] }
