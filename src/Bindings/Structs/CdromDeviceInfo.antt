-- ===== src/Bindings/Structs/CdromDeviceInfo.antt =====
-- The bit-fields of `cdrom_device_info` (jbm-ebpf/src/vmlinux.rs).
use jbm.Prelude.{[], ◌∷◌}
use jbm.Bindings.Layout.{BitField, bit_field, Layout}

abbrev pub options : BitField
options = bit_field 0 30 32

abbrev pub mc_flags : BitField
mc_flags = bit_field 30 2 32

abbrev pub sanyo_slot : BitField
sanyo_slot = bit_field 0 2 8

abbrev pub keeplocked : BitField
keeplocked = bit_field 2 1 8

abbrev pub reserved : BitField
reserved = bit_field 3 5 8

abbrev pub bitfield_1 : Layout
bitfield_1 = record { bytes = 4; fields = options ∷ mc_flags ∷ [] }

abbrev pub bitfield_2 : Layout
bitfield_2 = record { bytes = 1; fields = sanyo_slot ∷ keeplocked ∷ reserved ∷ [] }
