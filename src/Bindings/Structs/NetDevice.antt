-- ===== src/Bindings/Structs/NetDevice.antt =====
-- The bit-fields of `net_device` (jbm-ebpf/src/vmlinux.rs).
use jbm.Prelude.{[], ◌∷◌}
use jbm.Bindings.Layout.{BitField, bit_field, Layout}

abbrev pub reg_state : BitField
reg_state = bit_field 0 8 32

abbrev pub rtnl_link_state : BitField
rtnl_link_state = bit_field 0 16 32

abbrev pub wol_enabled : BitField
wol_enabled = bit_field 0 1 32

abbrev pub threaded : BitField
threaded = bit_field 1 1 32

abbrev pub bitfield_2 : Layout
bitfield_2 = record { bytes = 1; fields = reg_state ∷ [] }

abbrev pub bitfield_3 : Layout
bitfield_3 = record { bytes = 2; fields = rtnl_link_state ∷ [] }

abbrev pub bitfield_4 : Layout
bitfield_4 = record { bytes = 1; fields = wol_enabled ∷ threaded ∷ [] }
