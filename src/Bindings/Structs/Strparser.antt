-- ===== src/Bindings/Structs/Strparser.antt =====
-- The bit-fields of `strparser` (jbm-ebpf/src/vmlinux.rs).
use jbm.Prelude.{[], ◌∷◌}
use jbm.Bindings.Layout.{BitField, bit_field, Layout}

abbrev pub stopped : BitField
stopped = bit_field 0 1 32

abbrev pub paused : BitField
paused = bit_field 1 1 32

abbrev pub aborted : BitField
aborted = bit_field 2 1 32

abbrev pub interrupted : BitField
interrupted = bit_field 3 1 32

abbrev pub unrecov_intr : BitField
unrecov_intr = bit_field 4 1 32

abbrev pub bitfield_1 : Layout
bitfield_1 = record {
  bytes = 1;
  fields = stopped ∷ paused ∷ aborted ∷ interrupted ∷ unrecov_intr ∷ [];
}
