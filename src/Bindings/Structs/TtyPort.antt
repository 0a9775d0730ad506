-- ===== src/Bindings/Structs/TtyPort.antt =====
-- The bit-fields of `tty_port` (jbm-ebpf/src/vmlinux.rs).
use jbm.Prelude.{[], ◌∷◌}
use jbm.Bindings.Layout.{BitField, bit_field, Layout}

abbrev pub console : BitField
console = bit_field 0 1 8

abbrev pub low_latency : BitField
low_latency = bit_field 1 1 8

abbrev pub bitfield_1 : Layout
bitfield_1 = record { bytes = 1; fields = console ∷ low_latency ∷ [] }
