-- ===== src/Bindings/Structs/MiiBus.antt =====
-- The bit-fields of `mii_bus` (jbm-ebpf/src/vmlinux.rs).
use jbm.Prelude.{[], ◌∷◌}
use jbm.Bindings.Layout.{BitField, bit_field, Layout}

abbrev pub is_managed : BitField
is_managed = bit_field 0 1 32

abbrev pub is_managed_registered : BitField
is_managed_registered = bit_field 1 1 32

abbrev pub bitfield_1 : Layout
bitfield_1 = record { bytes = 1; fields = is_managed ∷ is_managed_registered ∷ [] }
