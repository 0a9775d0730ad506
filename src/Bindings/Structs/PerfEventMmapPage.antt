-- ===== src/Bindings/Structs/PerfEventMmapPage.antt =====
-- The bit-fields of `perf_event_mmap_page__bindgen_ty_1__bindgen_ty_1` (jbm-ebpf/src/vmlinux.rs).
use jbm.Prelude.{[], ◌∷◌}
use jbm.Bindings.Layout.{BitField, bit_field, Layout}

abbrev pub cap_bit0 : BitField
cap_bit0 = bit_field 0 1 64

abbrev pub cap_bit0_is_deprecated : BitField
cap_bit0_is_deprecated = bit_field 1 1 64

abbrev pub cap_user_rdpmc : BitField
cap_user_rdpmc = bit_field 2 1 64

abbrev pub cap_user_time : BitField
cap_user_time = bit_field 3 1 64

abbrev pub cap_user_time_zero : BitField
cap_user_time_zero = bit_field 4 1 64

abbrev pub cap_user_time_short : BitField
cap_user_time_short = bit_field 5 1 64

abbrev pub cap_____res : BitField
cap_____res = bit_field 6 58 64

abbrev pub bitfield_1 : Layout
bitfield_1 = record {
  bytes = 8;
  fields =
      cap_bit0 ∷ cap_bit0_is_deprecated ∷ cap_user_rdpmc ∷ cap_user_time ∷ cap_user_time_zero
      ∷ cap_user_time_short ∷ cap_____res ∷ [];
}
