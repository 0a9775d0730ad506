-- ===== src/Bindings/Structs/SockptrT.antt =====
-- The bit-fields of `sockptr_t` (jbm-ebpf/src/vmlinux.rs).
use jbm.Prelude.{[], ◌∷◌}
use jbm.Bindings.Layout.{BitField, bit_field, Layout}

abbrev pub is_kernel : BitField
is_kernel = bit_field 0 1 8

abbrev pub bitfield_1 : Layout
bitfield_1 = record { bytes = 1; fields = is_kernel ∷ [] }
