-- ===== src/Bindings/Structs/WritebackControl.antt =====
-- The bit-fields of `writeback_control` (jbm-ebpf/src/vmlinux.rs).
use jbm.Prelude.{[], ◌∷◌}
use jbm.Bindings.Layout.{BitField, bit_field, Layout}

abbrev pub for_kupdate : BitField
for_kupdate = bit_field 0 1 32

abbrev pub for_background : BitField
for_background = bit_field 1 1 32

abbrev pub tagged_writepages : BitField
tagged_writepages = bit_field 2 1 32

abbrev pub for_reclaim : BitField
for_reclaim = bit_field 3 1 32

abbrev pub range_cyclic : BitField
range_cyclic = bit_field 4 1 32

abbrev pub for_sync : BitField
for_sync = bit_field 5 1 32

abbrev pub no_cgroup_owner : BitField
no_cgroup_owner = bit_field 6 1 32

abbrev pub punt_to_cgroup : BitField
punt_to_cgroup = bit_field 7 1 32

abbrev pub bitfield_1 : Layout
bitfield_1 = record {
  bytes = 1;
  fields =
      for_kupdate ∷ for_background ∷ tagged_writepages ∷ for_reclaim ∷ range_cyclic ∷ for_sync
      ∷ no_cgroup_owner ∷ punt_to_cgroup ∷ [];
}
