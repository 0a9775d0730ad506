-- ===== src/Bindings/Structs/OrcEntry.antt =====
-- The bit-fields of `orc_entry` (jbm-ebpf/src/vmlinux.rs).
use jbm.Prelude.{[], ◌∷◌}
use jbm.Bindings.Layout.{BitField, bit_field, Layout}

abbrev pub sp_reg : BitField
sp_reg = bit_field 0 4 32

abbrev pub bp_reg : BitField
bp_reg = bit_field 4 4 32

abbrev pub type_ : BitField
type_ = bit_field 8 2 32

abbrev pub end : BitField
end = bit_field 10 1 32

abbrev pub bitfield_1 : Layout
bitfield_1 = record { bytes = 2; fields = sp_reg ∷ bp_reg ∷ type_ ∷ end ∷ [] }
