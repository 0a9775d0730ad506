-- ===== src/Bindings/Structs/DevlinkPortNewAttrs.antt =====
-- The bit-fields of `devlink_port_new_attrs` (jbm-ebpf/src/vmlinux.rs).
use jbm.Prelude.{[], ◌∷◌}
use jbm.Bindings.Layout.{BitField, bit_field, Layout}

abbrev pub port_index_valid : BitField
port_index_valid = bit_field 0 1 8

abbrev pub controller_valid : BitField
controller_valid = bit_field 1 1 8

abbrev pub sfnum_valid : BitField
sfnum_valid = bit_field 2 1 8

abbrev pub bitfield_1 : Layout
bitfield_1 = record { bytes = 1; fields = port_index_valid ∷ controller_valid ∷ sfnum_valid ∷ [] }
