-- ===== src/Bindings/Structs/HrtimerCpuBase.antt =====
-- The bit-fields of `hrtimer_cpu_base` (jbm-ebpf/src/vmlinux.rs).
use jbm.Prelude.{[], ◌∷◌}
use jbm.Bindings.Layout.{BitField, bit_field, Layout}

abbrev pub hres_active : BitField
hres_active = bit_field 0 1 32

abbrev pub in_hrtirq : BitField
in_hrtirq = bit_field 1 1 32

abbrev pub hang_detected : BitField
hang_detected = bit_field 2 1 32

abbrev pub softirq_activated : BitField
softirq_activated = bit_field 3 1 32

abbrev pub bitfield_1 : Layout
bitfield_1 = record {
  bytes = 1;
  fields = hres_active ∷ in_hrtirq ∷ hang_detected ∷ softirq_activated ∷ [];
}
