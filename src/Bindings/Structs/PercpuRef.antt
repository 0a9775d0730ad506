-- ===== src/Bindings/Structs/PercpuRef.antt =====
-- The bit-fields of `percpu_ref` (jbm-ebpf/src/vmlinux.rs).
use jbm.Prelude.{[], ◌∷◌}
use jbm.Bindings.Layout.{BitField, bit_field, Layout}

abbrev pub force_atomic : BitField
force_atomic = bit_field 0 1 8

abbrev pub allow_reinit : BitField
allow_reinit = bit_field 1 1 8

abbrev pub bitfield_1 : Layout
bitfield_1 = record { bytes = 1; fields = force_atomic ∷ allow_reinit ∷ [] }
