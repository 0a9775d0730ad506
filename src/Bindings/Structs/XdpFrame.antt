-- ===== src/Bindings/Structs/XdpFrame.antt =====
-- The bit-fields of `xdp_frame` (jbm-ebpf/src/vmlinux.rs).
use jbm.Prelude.{[], ◌∷◌}
use jbm.Bindings.Layout.{BitField, bit_field, Layout}

abbrev pub metasize : BitField
metasize = bit_field 0 8 32

abbrev pub frame_sz : BitField
frame_sz = bit_field 8 24 32

abbrev pub bitfield_1 : Layout
bitfield_1 = record { bytes = 4; fields = metasize ∷ frame_sz ∷ [] }
