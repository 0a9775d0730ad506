-- ===== src/Bindings/Structs/Fib6Info.antt =====
-- The bit-fields of `fib6_info` (jbm-ebpf/src/vmlinux.rs).
use jbm.Prelude.{[], ◌∷◌}
use jbm.Bindings.Layout.{BitField, bit_field, Layout}

abbrev pub exception_bucket_flushed : BitField
exception_bucket_flushed = bit_field 0 1 8

abbrev pub should_flush : BitField
should_flush = bit_field 1 1 8

abbrev pub dst_nocount : BitField
dst_nocount = bit_field 2 1 8

abbrev pub dst_nopolicy : BitField
dst_nopolicy = bit_field 3 1 8

abbrev pub dst_host : BitField
dst_host = bit_field 4 1 8

abbrev pub fib6_destroying : BitField
fib6_destroying = bit_field 5 1 8

abbrev pub offload : BitField
offload = bit_field 6 1 8

abbrev pub trap : BitField
trap = bit_field 7 1 8

abbrev pub bitfield_1 : Layout
bitfield_1 = record {
  bytes = 1;
  fields =
      exception_bucket_flushed ∷ should_flush ∷ dst_nocount ∷ dst_nopolicy ∷ dst_host
      ∷ fib6_destroying ∷ offload ∷ trap ∷ [];
}
