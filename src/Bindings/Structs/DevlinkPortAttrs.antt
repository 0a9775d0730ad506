-- ===== src/Bindings/Structs/DevlinkPortAttrs.antt =====
-- The bit-fields of `devlink_port_attrs` (jbm-ebpf/src/vmlinux.rs).
use jbm.Prelude.{[], ◌∷◌}
use jbm.Bindings.Layout.{BitField, bit_field, Layout}

abbrev pub split : BitField
split = bit_field 0 1 8

abbrev pub splittable : BitField
splittable = bit_field 1 1 8

abbrev pub bitfield_1 : Layout
bitfield_1 = record { bytes = 1; fields = split ∷ splittable ∷ [] }
