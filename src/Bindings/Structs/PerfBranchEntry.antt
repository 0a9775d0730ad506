-- ===== src/Bindings/Structs/PerfBranchEntry.antt =====
-- The bit-fields of `perf_branch_entry` (jbm-ebpf/src/vmlinux.rs).
use jbm.Prelude.{[], ◌∷◌}
use jbm.Bindings.Layout.{BitField, bit_field, Layout}

abbrev pub mispred : BitField
mispred = bit_field 0 1 64

abbrev pub predicted : BitField
predicted = bit_field 1 1 64

abbrev pub in_tx : BitField
in_tx = bit_field 2 1 64

abbrev pub abort : BitField
abort = bit_field 3 1 64

abbrev pub cycles : BitField
cycles = bit_field 4 16 64

abbrev pub type_ : BitField
type_ = bit_field 20 4 64

abbrev pub reserved : BitField
reserved = bit_field 24 40 64

abbrev pub bitfield_1 : Layout
bitfield_1 = record {
  bytes = 8;
  fields = mispred ∷ predicted ∷ in_tx ∷ abort ∷ cycles ∷ type_ ∷ reserved ∷ [];
}
