-- ===== src/Bindings/Structs/SockReuseport.antt =====
-- The bit-fields of `sock_reuseport` (jbm-ebpf/src/vmlinux.rs).
use jbm.Prelude.{[], ◌∷◌}
use jbm.Bindings.Layout.{BitField, bit_field, Layout}

abbrev pub bind_inany : BitField
bind_inany = bit_field 0 1 32

abbrev pub has_conns : BitField
has_conns = bit_field 1 1 32

abbrev pub bitfield_1 : Layout
bitfield_1 = record { bytes = 1; fields = bind_inany ∷ has_conns ∷ [] }
