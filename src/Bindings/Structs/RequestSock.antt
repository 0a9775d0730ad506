-- ===== src/Bindings/Structs/RequestSock.antt =====
-- The bit-fields of `request_sock` (jbm-ebpf/src/vmlinux.rs).
use jbm.Prelude.{[], ◌∷◌}
use jbm.Bindings.Layout.{BitField, bit_field, Layout}

abbrev pub syncookie : BitField
syncookie = bit_field 0 1 8

abbrev pub num_timeout : BitField
num_timeout = bit_field 1 7 8

abbrev pub bitfield_1 : Layout
bitfield_1 = record { bytes = 1; fields = syncookie ∷ num_timeout ∷ [] }
