-- ===== src/Bindings/Structs/WakeupSource.antt =====
-- The bit-fields of `wakeup_source` (jbm-ebpf/src/vmlinux.rs).
use jbm.Prelude.{[], ◌∷◌}
use jbm.Bindings.Layout.{BitField, bit_field, Layout}

abbrev pub active : BitField
active = bit_field 0 1 8

abbrev pub autosleep_enabled : BitField
autosleep_enabled = bit_field 1 1 8

abbrev pub bitfield_1 : Layout
bitfield_1 = record { bytes = 1; fields = active ∷ autosleep_enabled ∷ [] }
