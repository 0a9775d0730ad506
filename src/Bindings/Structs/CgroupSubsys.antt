-- ===== src/Bindings/Structs/CgroupSubsys.antt =====
-- The bit-fields of `cgroup_subsys` (jbm-ebpf/src/vmlinux.rs).
use jbm.Prelude.{[], ◌∷◌}
use jbm.Bindings.Layout.{BitField, bit_field, Layout}

abbrev pub early_init : BitField
early_init = bit_field 0 1 8

abbrev pub implicit_on_dfl : BitField
implicit_on_dfl = bit_field 1 1 8

abbrev pub threaded : BitField
threaded = bit_field 2 1 8

abbrev pub rh_reserved_broken_hierarchy : BitField
rh_reserved_broken_hierarchy = bit_field 3 1 8

abbrev pub rh_reserved_warned_broken_hierarchy : BitField
rh_reserved_warned_broken_hierarchy = bit_field 4 1 8

abbrev pub bitfield_1 : Layout
bitfield_1 = record {
  bytes = 1;
  fields =
      early_init ∷ implicit_on_dfl ∷ threaded ∷ rh_reserved_broken_hierarchy
      ∷ rh_reserved_warned_broken_hierarchy ∷ [];
}
