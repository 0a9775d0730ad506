-- ===== src/Bindings/Structs/EthtoolOps.antt =====
-- The bit-fields of `ethtool_ops__bindgen_ty_9__bindgen_ty_1` (jbm-ebpf/src/vmlinux.rs).
use jbm.Prelude.{[], ◌∷◌}
use jbm.Bindings.Layout.{BitField, bit_field, Layout}

abbrev pub cap_link_lanes_supported : BitField
cap_link_lanes_supported = bit_field 0 1 32

abbrev pub bitfield_1 : Layout
bitfield_1 = record { bytes = 1; fields = cap_link_lanes_supported ∷ [] }
