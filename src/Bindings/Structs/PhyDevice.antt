-- ===== src/Bindings/Structs/PhyDevice.antt =====
-- The bit-fields of `phy_device` (jbm-ebpf/src/vmlinux.rs).
use jbm.Prelude.{[], ◌∷◌}
use jbm.Bindings.Layout.{BitField, bit_field, Layout}

abbrev pub is_c45 : BitField
is_c45 = bit_field 0 1 32

abbrev pub is_internal : BitField
is_internal = bit_field 1 1 32

abbrev pub is_pseudo_fixed_link : BitField
is_pseudo_fixed_link = bit_field 2 1 32

abbrev pub has_fixups : BitField
has_fixups = bit_field 3 1 32

abbrev pub suspended : BitField
suspended = bit_field 4 1 32

abbrev pub sysfs_links : BitField
sysfs_links = bit_field 5 1 32

abbrev pub loopback_enabled : BitField
loopback_enabled = bit_field 6 1 32

abbrev pub autoneg : BitField
autoneg = bit_field 7 1 32

abbrev pub link : BitField
link = bit_field 8 1 32

abbrev pub is_gigabit_capable : BitField
is_gigabit_capable = bit_field 9 1 32

abbrev pub autoneg_complete : BitField
autoneg_complete = bit_field 10 1 32

abbrev pub interrupts : BitField
interrupts = bit_field 11 1 32

abbrev pub suspended_by_mdio_bus : BitField
suspended_by_mdio_bus = bit_field 12 1 32

abbrev pub downshifted_rate : BitField
downshifted_rate = bit_field 13 1 32

abbrev pub mac_managed_pm : BitField
mac_managed_pm = bit_field 14 1 32

abbrev pub is_on_sfp_module : BitField
is_on_sfp_module = bit_field 15 1 32

abbrev pub bitfield_1 : Layout
bitfield_1 = record {
  bytes = 2;
  fields =
      is_c45 ∷ is_internal ∷ is_pseudo_fixed_link ∷ has_fixups ∷ suspended ∷ sysfs_links
      ∷ loopback_enabled ∷ autoneg ∷ link ∷ is_gigabit_capable ∷ autoneg_complete ∷ interrupts
      ∷ suspended_by_mdio_bus ∷ downshifted_rate ∷ mac_managed_pm ∷ is_on_sfp_module ∷ [];
}
