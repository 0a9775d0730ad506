-- ===== src/Bindings/Structs/Kobject.antt =====
-- The bit-fields of `kobject` (jbm-ebpf/src/vmlinux.rs).
use jbm.Prelude.{[], ◌∷◌}
use jbm.Bindings.Layout.{BitField, bit_field, Layout}

abbrev pub state_initialized : BitField
state_initialized = bit_field 0 1 32

abbrev pub state_in_sysfs : BitField
state_in_sysfs = bit_field 1 1 32

abbrev pub state_add_uevent_sent : BitField
state_add_uevent_sent = bit_field 2 1 32

abbrev pub state_remove_uevent_sent : BitField
state_remove_uevent_sent = bit_field 3 1 32

abbrev pub uevent_suppress : BitField
uevent_suppress = bit_field 4 1 32

abbrev pub bitfield_1 : Layout
bitfield_1 = record {
  bytes = 1;
  fields =
      state_initialized ∷ state_in_sysfs ∷ state_add_uevent_sent ∷ state_remove_uevent_sent
      ∷ uevent_suppress ∷ [];
}
