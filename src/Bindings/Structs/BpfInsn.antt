-- ===== src/Bindings/Structs/BpfInsn.antt =====
-- The bit-fields of `bpf_insn` (jbm-ebpf/src/vmlinux.rs).
use jbm.Prelude.{[], ◌∷◌}
use jbm.Bindings.Layout.{BitField, bit_field, Layout}

abbrev pub dst_reg : BitField
dst_reg = bit_field 0 4 8

abbrev pub src_reg : BitField
src_reg = bit_field 4 4 8

abbrev pub bitfield_1 : Layout
bitfield_1 = record { bytes = 1; fields = dst_reg ∷ src_reg ∷ [] }
