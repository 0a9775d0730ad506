-- ===== src/Bindings/Structs/BpfProg.antt =====
-- The bit-fields of `bpf_prog` (jbm-ebpf/src/vmlinux.rs).
use jbm.Prelude.{[], ◌∷◌}
use jbm.Bindings.Layout.{BitField, bit_field, Layout}

abbrev pub jited : BitField
jited = bit_field 0 1 16

abbrev pub jit_requested : BitField
jit_requested = bit_field 1 1 16

abbrev pub gpl_compatible : BitField
gpl_compatible = bit_field 2 1 16

abbrev pub cb_access : BitField
cb_access = bit_field 3 1 16

abbrev pub dst_needed : BitField
dst_needed = bit_field 4 1 16

abbrev pub blinded : BitField
blinded = bit_field 5 1 16

abbrev pub is_func : BitField
is_func = bit_field 6 1 16

abbrev pub kprobe_override : BitField
kprobe_override = bit_field 7 1 16

abbrev pub has_callchain_buf : BitField
has_callchain_buf = bit_field 8 1 16

abbrev pub enforce_expected_attach_type : BitField
enforce_expected_attach_type = bit_field 9 1 16

abbrev pub call_get_stack : BitField
call_get_stack = bit_field 10 1 16

abbrev pub bitfield_1 : Layout
bitfield_1 = record {
  bytes = 2;
  fields =
      jited ∷ jit_requested ∷ gpl_compatible ∷ cb_access ∷ dst_needed ∷ blinded ∷ is_func
      ∷ kprobe_override ∷ has_callchain_buf ∷ enforce_expected_attach_type ∷ call_get_stack ∷ [];
}
