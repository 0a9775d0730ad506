-- ===== src/Bindings/Structs/SubsysPrivate.antt =====
-- The bit-fields of `subsys_private` (jbm-ebpf/src/vmlinux.rs).
use jbm.Prelude.{[], ◌∷◌}
use jbm.Bindings.Layout.{BitField, bit_field, Layout}

abbrev pub drivers_autoprobe : BitField
drivers_autoprobe = bit_field 0 1 32

abbrev pub bitfield_1 : Layout
bitfield_1 = record { bytes = 1; fields = drivers_autoprobe ∷ [] }
