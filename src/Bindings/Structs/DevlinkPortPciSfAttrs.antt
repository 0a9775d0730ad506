-- ===== src/Bindings/Structs/DevlinkPortPciSfAttrs.antt =====
-- The bit-fields of `devlink_port_pci_sf_attrs` (jbm-ebpf/src/vmlinux.rs).
use jbm.Prelude.{[], ◌∷◌}
use jbm.Bindings.Layout.{BitField, bit_field, Layout}

abbrev pub external : BitField
external = bit_field 0 1 8

abbrev pub bitfield_1 : Layout
bitfield_1 = record { bytes = 1; fields = external ∷ [] }
