-- ===== src/Bindings/Structs/Page.antt =====
-- The bit-fields of `page__bindgen_ty_1__bindgen_ty_3__bindgen_ty_2__bindgen_ty_1` (jbm-ebpf/src/vmlinux.rs).
use jbm.Prelude.{[], ◌∷◌}
use jbm.Bindings.Layout.{BitField, bit_field, Layout}

abbrev pub inuse : BitField
inuse = bit_field 0 16 32

abbrev pub objects : BitField
objects = bit_field 16 15 32

abbrev pub frozen : BitField
frozen = bit_field 31 1 32

abbrev pub bitfield_1 : Layout
bitfield_1 = record { bytes = 4; fields = inuse ∷ objects ∷ frozen ∷ [] }
