-- ===== src/Bindings/Structs/IoApicRouteEntry.antt =====
-- The bit-fields of `IO_APIC_route_entry` (jbm-ebpf/src/vmlinux.rs).
use jbm.Prelude.{[], ◌∷◌}
use jbm.Bindings.Layout.{BitField, bit_field, Layout}

abbrev pub vector : BitField
vector = bit_field 0 8 32

abbrev pub delivery_mode : BitField
delivery_mode = bit_field 8 3 32

abbrev pub dest_mode : BitField
dest_mode = bit_field 11 1 32

abbrev pub delivery_status : BitField
delivery_status = bit_field 12 1 32

abbrev pub polarity : BitField
polarity = bit_field 13 1 32

abbrev pub irr : BitField
irr = bit_field 14 1 32

abbrev pub trigger : BitField
trigger = bit_field 15 1 32

abbrev pub mask : BitField
mask = bit_field 16 1 32

abbrev pub reserved_2 : BitField
reserved_2 = bit_field 17 15 32

abbrev pub reserved_3 : BitField
reserved_3 = bit_field 32 17 32

abbrev pub virt_destid_8_14 : BitField
virt_destid_8_14 = bit_field 49 7 32

abbrev pub dest : BitField
dest = bit_field 56 8 32

abbrev pub bitfield_1 : Layout
bitfield_1 = record {
  bytes = 8;
  fields =
      vector ∷ delivery_mode ∷ dest_mode ∷ delivery_status ∷ polarity ∷ irr ∷ trigger ∷ mask
      ∷ reserved_2 ∷ reserved_3 ∷ virt_destid_8_14 ∷ dest ∷ [];
}
