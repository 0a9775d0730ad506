-- ===== src/Bindings/Structs/NfBridgeInfo.antt =====
-- The bit-fields of `nf_bridge_info` (jbm-ebpf/src/vmlinux.rs).
use jbm.Prelude.{[], ◌∷◌}
use jbm.Bindings.Layout.{BitField, bit_field, Layout}

abbrev pub orig_proto : BitField
orig_proto = bit_field 0 8 32

abbrev pub pkt_otherhost : BitField
pkt_otherhost = bit_field 8 1 8

abbrev pub in_prerouting : BitField
in_prerouting = bit_field 9 1 8

abbrev pub bridged_dnat : BitField
bridged_dnat = bit_field 10 1 8

abbrev pub bitfield_1 : Layout
bitfield_1 = record {
  bytes = 2;
  fields = orig_proto ∷ pkt_otherhost ∷ in_prerouting ∷ bridged_dnat ∷ [];
}
