-- ===== src/Bindings/Structs/SockCommon.antt =====
-- The bit-fields of `sock_common` (jbm-ebpf/src/vmlinux.rs).
use jbm.Prelude.{[], ◌∷◌}
use jbm.Bindings.Layout.{BitField, bit_field, Layout}

abbrev pub skc_reuse : BitField
skc_reuse = bit_field 0 4 8

abbrev pub skc_reuseport : BitField
skc_reuseport = bit_field 4 1 8

abbrev pub skc_ipv6only : BitField
skc_ipv6only = bit_field 5 1 8

abbrev pub skc_net_refcnt : BitField
skc_net_refcnt = bit_field 6 1 8

abbrev pub bitfield_1 : Layout
bitfield_1 = record {
  bytes = 1;
  fields = skc_reuse ∷ skc_reuseport ∷ skc_ipv6only ∷ skc_net_refcnt ∷ [];
}
