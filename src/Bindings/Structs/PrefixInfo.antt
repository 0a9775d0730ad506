-- ===== src/Bindings/Structs/PrefixInfo.antt =====
-- The bit-fields of `prefix_info` (jbm-ebpf/src/vmlinux.rs).
use jbm.Prelude.{[], ◌∷◌}
use jbm.Bindings.Layout.{BitField, bit_field, Layout}

abbrev pub reserved : BitField
reserved = bit_field 0 6 8

abbrev pub autoconf : BitField
autoconf = bit_field 6 1 8

abbrev pub onlink : BitField
onlink = bit_field 7 1 8

abbrev pub bitfield_1 : Layout
bitfield_1 = record { bytes = 1; fields = reserved ∷ autoconf ∷ onlink ∷ [] }
