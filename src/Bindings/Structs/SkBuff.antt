-- ===== src/Bindings/Structs/SkBuff.antt =====
-- The bit-fields of `sk_buff` (jbm-ebpf/src/vmlinux.rs).
use jbm.Prelude.{[], ◌∷◌}
use jbm.Bindings.Layout.{BitField, bit_field, Layout}

abbrev pub cloned : BitField
cloned = bit_field 0 1 8

abbrev pub nohdr : BitField
nohdr = bit_field 1 1 8

abbrev pub fclone : BitField
fclone = bit_field 2 2 8

abbrev pub peeked : BitField
peeked = bit_field 4 1 8

abbrev pub head_frag : BitField
head_frag = bit_field 5 1 8

abbrev pub rh_reserved_xmit_more : BitField
rh_reserved_xmit_more = bit_field 6 1 8

abbrev pub pfmemalloc : BitField
pfmemalloc = bit_field 7 1 8

abbrev pub pkt_type : BitField
pkt_type = bit_field 0 3 8

abbrev pub ignore_df : BitField
ignore_df = bit_field 3 1 8

abbrev pub nf_trace : BitField
nf_trace = bit_field 4 1 8

abbrev pub ip_summed : BitField
ip_summed = bit_field 5 2 8

abbrev pub ooo_okay : BitField
ooo_okay = bit_field 7 1 8

abbrev pub l4_hash : BitField
l4_hash = bit_field 8 1 8

abbrev pub sw_hash : BitField
sw_hash = bit_field 9 1 8

abbrev pub wifi_acked_valid : BitField
wifi_acked_valid = bit_field 10 1 8

abbrev pub wifi_acked : BitField
wifi_acked = bit_field 11 1 8

abbrev pub no_fcs : BitField
no_fcs = bit_field 12 1 8

abbrev pub encapsulation : BitField
encapsulation = bit_field 13 1 8

abbrev pub encap_hdr_csum : BitField
encap_hdr_csum = bit_field 14 1 8

abbrev pub csum_valid : BitField
csum_valid = bit_field 15 1 8

abbrev pub csum_complete_sw : BitField
csum_complete_sw = bit_field 16 1 8

abbrev pub csum_level : BitField
csum_level = bit_field 17 2 8

abbrev pub csum_not_inet : BitField
csum_not_inet = bit_field 19 1 8

abbrev pub dst_pending_confirm : BitField
dst_pending_confirm = bit_field 20 1 8

abbrev pub ndisc_nodetype : BitField
ndisc_nodetype = bit_field 21 2 8

abbrev pub ipvs_property : BitField
ipvs_property = bit_field 23 1 8

abbrev pub inner_protocol_type : BitField
inner_protocol_type = bit_field 24 1 8

abbrev pub remcsum_offload : BitField
remcsum_offload = bit_field 25 1 8

abbrev pub offload_fwd_mark : BitField
offload_fwd_mark = bit_field 26 1 8

abbrev pub offload_l3_fwd_mark : BitField
offload_l3_fwd_mark = bit_field 27 1 8

abbrev pub tc_skip_classify : BitField
tc_skip_classify = bit_field 28 1 8

abbrev pub tc_at_ingress : BitField
tc_at_ingress = bit_field 29 1 8

abbrev pub redirected : BitField
redirected = bit_field 30 1 8

abbrev pub from_ingress : BitField
from_ingress = bit_field 31 1 8

abbrev pub decrypted : BitField
decrypted = bit_field 0 1 8

abbrev pub slow_gro : BitField
slow_gro = bit_field 1 1 8

abbrev pub bitfield_1 : Layout
bitfield_1 = record {
  bytes = 1;
  fields = cloned ∷ nohdr ∷ fclone ∷ peeked ∷ head_frag ∷ rh_reserved_xmit_more ∷ pfmemalloc ∷ [];
}

abbrev pub bitfield_2 : Layout
bitfield_2 = record {
  bytes = 4;
  fields =
      pkt_type ∷ ignore_df ∷ nf_trace ∷ ip_summed ∷ ooo_okay ∷ l4_hash ∷ sw_hash ∷ wifi_acked_valid
      ∷ wifi_acked ∷ no_fcs ∷ encapsulation ∷ encap_hdr_csum ∷ csum_valid ∷ csum_complete_sw
      ∷ csum_level ∷ csum_not_inet ∷ dst_pending_confirm ∷ ndisc_nodetype ∷ ipvs_property
      ∷ inner_protocol_type ∷ remcsum_offload ∷ offload_fwd_mark ∷ offload_l3_fwd_mark
      ∷ tc_skip_classify ∷ tc_at_ingress ∷ redirected ∷ from_ingress ∷ [];
}

abbrev pub bitfield_3 : Layout
bitfield_3 = record { bytes = 1; fields = decrypted ∷ slow_gro ∷ [] }
