-- ===== src/Bindings/Structs/TtyAuditBuf.antt =====
-- The bit-fields of `tty_audit_buf` (jbm-ebpf/src/vmlinux.rs).
use jbm.Prelude.{[], ◌∷◌}
use jbm.Bindings.Layout.{BitField, bit_field, Layout}

abbrev pub icanon : BitField
icanon = bit_field 0 1 32

abbrev pub bitfield_1 : Layout
bitfield_1 = record { bytes = 1; fields = icanon ∷ [] }
