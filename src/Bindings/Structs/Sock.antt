-- ===== src/Bindings/Structs/Sock.antt =====
-- The bit-fields of `sock` (jbm-ebpf/src/vmlinux.rs).
use jbm.Prelude.{[], ◌∷◌}
use jbm.Bindings.Layout.{BitField, bit_field, Layout}

abbrev pub sk_padding : BitField
sk_padding = bit_field 0 1 32

abbrev pub sk_kern_sock : BitField
sk_kern_sock = bit_field 1 1 32

abbrev pub sk_no_check_tx : BitField
sk_no_check_tx = bit_field 2 1 32

abbrev pub sk_no_check_rx : BitField
sk_no_check_rx = bit_field 3 1 32

abbrev pub sk_userlocks : BitField
sk_userlocks = bit_field 4 4 32

abbrev pub sk_protocol : BitField
sk_protocol = bit_field 8 8 32

abbrev pub sk_type : BitField
sk_type = bit_field 16 16 32

abbrev pub sk_txtime_deadline_mode : BitField
sk_txtime_deadline_mode = bit_field 0 1 8

abbrev pub sk_txtime_report_errors : BitField
sk_txtime_report_errors = bit_field 1 1 8

abbrev pub sk_txtime_unused : BitField
sk_txtime_unused = bit_field 2 6 8

abbrev pub bitfield_1 : Layout
bitfield_1 = record {
  bytes = 4;
  fields =
      sk_padding ∷ sk_kern_sock ∷ sk_no_check_tx ∷ sk_no_check_rx ∷ sk_userlocks ∷ sk_protocol
      ∷ sk_type ∷ [];
}

abbrev pub bitfield_2 : Layout
bitfield_2 = record {
  bytes = 1;
  fields = sk_txtime_deadline_mode ∷ sk_txtime_report_errors ∷ sk_txtime_unused ∷ [];
}
