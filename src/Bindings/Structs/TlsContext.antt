-- ===== src/Bindings/Structs/TlsContext.antt =====
-- The bit-fields of `tls_context` (jbm-ebpf/src/vmlinux.rs).
use jbm.Prelude.{[], ◌∷◌}
use jbm.Bindings.Layout.{BitField, bit_field, Layout}

abbrev pub tx_conf : BitField
tx_conf = bit_field 0 3 8

abbrev pub rx_conf : BitField
rx_conf = bit_field 3 3 8

abbrev pub bitfield_1 : Layout
bitfield_1 = record { bytes = 1; fields = tx_conf ∷ rx_conf ∷ [] }
