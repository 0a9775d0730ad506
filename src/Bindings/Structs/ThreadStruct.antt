-- ===== src/Bindings/Structs/ThreadStruct.antt =====
-- The bit-fields of `thread_struct` (jbm-ebpf/src/vmlinux.rs).
use jbm.Prelude.{[], ◌∷◌}
use jbm.Bindings.Layout.{BitField, bit_field, Layout}

abbrev pub sig_on_uaccess_err : BitField
sig_on_uaccess_err = bit_field 0 1 32

abbrev pub uaccess_err : BitField
uaccess_err = bit_field 1 1 32

abbrev pub bitfield_1 : Layout
bitfield_1 = record { bytes = 32; fields = sig_on_uaccess_err ∷ uaccess_err ∷ [] }
