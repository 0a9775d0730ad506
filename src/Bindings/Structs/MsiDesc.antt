-- ===== src/Bindings/Structs/MsiDesc.antt =====
-- The bit-fields of `msi_desc__bindgen_ty_1__bindgen_ty_1__bindgen_ty_1` (jbm-ebpf/src/vmlinux.rs).
use jbm.Prelude.{[], ◌∷◌}
use jbm.Bindings.Layout.{BitField, bit_field, Layout}

abbrev pub is_msix : BitField
is_msix = bit_field 0 1 8

abbrev pub multiple : BitField
multiple = bit_field 1 3 8

abbrev pub multi_cap : BitField
multi_cap = bit_field 4 3 8

abbrev pub maskbit : BitField
maskbit = bit_field 7 1 8

abbrev pub is_64 : BitField
is_64 = bit_field 8 1 8

abbrev pub is_virtual : BitField
is_virtual = bit_field 9 1 8

abbrev pub bitfield_1 : Layout
bitfield_1 = record {
  bytes = 2;
  fields = is_msix ∷ multiple ∷ multi_cap ∷ maskbit ∷ is_64 ∷ is_virtual ∷ [];
}
