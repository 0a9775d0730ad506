-- ===== src/Bindings/Structs/CpuidleDevice.antt =====
-- The bit-fields of `cpuidle_device` (jbm-ebpf/src/vmlinux.rs).
use jbm.Prelude.{[], ◌∷◌}
use jbm.Bindings.Layout.{BitField, bit_field, Layout}

abbrev pub registered : BitField
registered = bit_field 0 1 32

abbrev pub enabled : BitField
enabled = bit_field 1 1 32

abbrev pub rh_reserved_use_deepest_state : BitField
rh_reserved_use_deepest_state = bit_field 2 1 32

abbrev pub poll_time_limit : BitField
poll_time_limit = bit_field 3 1 32

abbrev pub bitfield_1 : Layout
bitfield_1 = record {
  bytes = 1;
  fields = registered ∷ enabled ∷ rh_reserved_use_deepest_state ∷ poll_time_limit ∷ [];
}
