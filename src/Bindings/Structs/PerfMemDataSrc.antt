-- ===== src/Bindings/Structs/PerfMemDataSrc.antt =====
-- The bit-fields of `perf_mem_data_src__bindgen_ty_1` (jbm-ebpf/src/vmlinux.rs).
use jbm.Prelude.{[], ◌∷◌}
use jbm.Bindings.Layout.{BitField, bit_field, Layout}

abbrev pub mem_op : BitField
mem_op = bit_field 0 5 64

abbrev pub mem_lvl : BitField
mem_lvl = bit_field 5 14 64

abbrev pub mem_snoop : BitField
mem_snoop = bit_field 19 5 64

abbrev pub mem_lock : BitField
mem_lock = bit_field 24 2 64

abbrev pub mem_dtlb : BitField
mem_dtlb = bit_field 26 7 64

abbrev pub mem_lvl_num : BitField
mem_lvl_num = bit_field 33 4 64

abbrev pub mem_remote : BitField
mem_remote = bit_field 37 1 64

abbrev pub mem_snoopx : BitField
mem_snoopx = bit_field 38 2 64

abbrev pub mem_blk : BitField
mem_blk = bit_field 40 3 64

abbrev pub mem_hops : BitField
mem_hops = bit_field 43 3 64

abbrev pub mem_rsvd : BitField
mem_rsvd = bit_field 46 18 64

abbrev pub bitfield_1 : Layout
bitfield_1 = record {
  bytes = 8;
  fields =
      mem_op ∷ mem_lvl ∷ mem_snoop ∷ mem_lock ∷ mem_dtlb ∷ mem_lvl_num ∷ mem_remote ∷ mem_snoopx
      ∷ mem_blk ∷ mem_hops ∷ mem_rsvd ∷ [];
}
