-- ===== src/Bindings/Structs/Devlink.antt =====
-- The bit-fields of `devlink` (jbm-ebpf/src/vmlinux.rs).
use jbm.Prelude.{[], ◌∷◌}
use jbm.Bindings.Layout.{BitField, bit_field, Layout}

abbrev pub reload_failed : BitField
reload_failed = bit_field 0 1 8

abbrev pub bitfield_1 : Layout
bitfield_1 = record { bytes = 1; fields = reload_failed ∷ [] }
