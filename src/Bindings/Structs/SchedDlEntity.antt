-- ===== src/Bindings/Structs/SchedDlEntity.antt =====
-- The bit-fields of `sched_dl_entity` (jbm-ebpf/src/vmlinux.rs).
use jbm.Prelude.{[], ◌∷◌}
use jbm.Bindings.Layout.{BitField, bit_field, Layout}

abbrev pub dl_throttled : BitField
dl_throttled = bit_field 0 1 32

abbrev pub rh_reserved_dl_boosted : BitField
rh_reserved_dl_boosted = bit_field 1 1 32

abbrev pub dl_yielded : BitField
dl_yielded = bit_field 2 1 32

abbrev pub dl_non_contending : BitField
dl_non_contending = bit_field 3 1 32

abbrev pub dl_overrun : BitField
dl_overrun = bit_field 4 1 32

abbrev pub bitfield_1 : Layout
bitfield_1 = record {
  bytes = 1;
  fields = dl_throttled ∷ rh_reserved_dl_boosted ∷ dl_yielded ∷ dl_non_contending ∷ dl_overrun ∷ [];
}
