-- ===== src/Bindings/Structs/Device.antt =====
-- The bit-fields of `device` (jbm-ebpf/src/vmlinux.rs).
use jbm.Prelude.{[], ◌∷◌}
use jbm.Bindings.Layout.{BitField, bit_field, Layout}

abbrev pub offline_disabled : BitField
offline_disabled = bit_field 0 1 8

abbrev pub offline : BitField
offline = bit_field 1 1 8

abbrev pub of_node_reused : BitField
of_node_reused = bit_field 2 1 8

abbrev pub state_synced : BitField
state_synced = bit_field 3 1 8

abbrev pub can_match : BitField
can_match = bit_field 4 1 8

abbrev pub bitfield_1 : Layout
bitfield_1 = record {
  bytes = 1;
  fields = offline_disabled ∷ offline ∷ of_node_reused ∷ state_synced ∷ can_match ∷ [];
}
