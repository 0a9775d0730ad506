-- ===== src/Bindings/Structs/PerfEventAttr.antt =====
-- The bit-fields of `perf_event_attr` (jbm-ebpf/src/vmlinux.rs).
use jbm.Prelude.{[], ◌∷◌}
use jbm.Bindings.Layout.{BitField, bit_field, Layout}

abbrev pub disabled : BitField
disabled = bit_field 0 1 64

abbrev pub inherit : BitField
inherit = bit_field 1 1 64

abbrev pub pinned : BitField
pinned = bit_field 2 1 64

abbrev pub exclusive : BitField
exclusive = bit_field 3 1 64

abbrev pub exclude_user : BitField
exclude_user = bit_field 4 1 64

abbrev pub exclude_kernel : BitField
exclude_kernel = bit_field 5 1 64

abbrev pub exclude_hv : BitField
exclude_hv = bit_field 6 1 64

abbrev pub exclude_idle : BitField
exclude_idle = bit_field 7 1 64

abbrev pub mmap : BitField
mmap = bit_field 8 1 64

abbrev pub comm : BitField
comm = bit_field 9 1 64

abbrev pub freq : BitField
freq = bit_field 10 1 64

abbrev pub inherit_stat : BitField
inherit_stat = bit_field 11 1 64

abbrev pub enable_on_exec : BitField
enable_on_exec = bit_field 12 1 64

abbrev pub task : BitField
task = bit_field 13 1 64

abbrev pub watermark : BitField
watermark = bit_field 14 1 64

abbrev pub precise_ip : BitField
precise_ip = bit_field 15 2 64

abbrev pub mmap_data : BitField
mmap_data = bit_field 17 1 64

abbrev pub sample_id_all : BitField
sample_id_all = bit_field 18 1 64

abbrev pub exclude_host : BitField
exclude_host = bit_field 19 1 64

abbrev pub exclude_guest : BitField
exclude_guest = bit_field 20 1 64

abbrev pub exclude_callchain_kernel : BitField
exclude_callchain_kernel = bit_field 21 1 64

abbrev pub exclude_callchain_user : BitField
exclude_callchain_user = bit_field 22 1 64

abbrev pub mmap2 : BitField
mmap2 = bit_field 23 1 64

abbrev pub comm_exec : BitField
comm_exec = bit_field 24 1 64

abbrev pub use_clockid : BitField
use_clockid = bit_field 25 1 64

abbrev pub context_switch : BitField
context_switch = bit_field 26 1 64

abbrev pub write_backward : BitField
write_backward = bit_field 27 1 64

abbrev pub namespaces : BitField
namespaces = bit_field 28 1 64

abbrev pub ksymbol : BitField
ksymbol = bit_field 29 1 64

abbrev pub bpf_event : BitField
bpf_event = bit_field 30 1 64

abbrev pub aux_output : BitField
aux_output = bit_field 31 1 64

abbrev pub cgroup : BitField
cgroup = bit_field 32 1 64

abbrev pub text_poke : BitField
text_poke = bit_field 33 1 64

abbrev pub build_id : BitField
build_id = bit_field 34 1 64

abbrev pub inherit_thread : BitField
inherit_thread = bit_field 35 1 64

abbrev pub remove_on_exec : BitField
remove_on_exec = bit_field 36 1 64

abbrev pub reserved_1 : BitField
reserved_1 = bit_field 37 27 64

abbrev pub bitfield_1 : Layout
bitfield_1 = record {
  bytes = 8;
  fields =
      disabled ∷ inherit ∷ pinned ∷ exclusive ∷ exclude_user ∷ exclude_kernel ∷ exclude_hv
      ∷ exclude_idle ∷ mmap ∷ comm ∷ freq ∷ inherit_stat ∷ enable_on_exec ∷ task ∷ watermark
      ∷ precise_ip ∷ mmap_data ∷ sample_id_all ∷ exclude_host ∷ exclude_guest
      ∷ exclude_callchain_kernel ∷ exclude_callchain_user ∷ mmap2 ∷ comm_exec ∷ use_clockid
      ∷ context_switch ∷ write_backward ∷ namespaces ∷ ksymbol ∷ bpf_event ∷ aux_output ∷ cgroup
      ∷ text_poke ∷ build_id ∷ inherit_thread ∷ remove_on_exec ∷ reserved_1 ∷ [];
}
