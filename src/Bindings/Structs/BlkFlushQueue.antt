-- ===== src/Bindings/Structs/BlkFlushQueue.antt =====
-- The bit-fields of `blk_flush_queue` (jbm-ebpf/src/vmlinux.rs).
use jbm.Prelude.{[], ◌∷◌}
use jbm.Bindings.Layout.{BitField, bit_field, Layout}

abbrev pub rh_reserved_flush_queue_delayed : BitField
rh_reserved_flush_queue_delayed = bit_field 0 1 32

abbrev pub flush_pending_idx : BitField
flush_pending_idx = bit_field 1 1 32

abbrev pub flush_running_idx : BitField
flush_running_idx = bit_field 2 1 32

abbrev pub bitfield_1 : Layout
bitfield_1 = record {
  bytes = 1;
  fields = rh_reserved_flush_queue_delayed ∷ flush_pending_idx ∷ flush_running_idx ∷ [];
}
