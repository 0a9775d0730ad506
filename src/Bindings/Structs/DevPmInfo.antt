-- ===== src/Bindings/Structs/DevPmInfo.antt =====
-- The bit-fields of `dev_pm_info` (jbm-ebpf/src/vmlinux.rs).
use jbm.Prelude.{[], ◌∷◌}
use jbm.Bindings.Layout.{BitField, bit_field, Layout}

abbrev pub can_wakeup : BitField
can_wakeup = bit_field 0 1 32

abbrev pub async_suspend : BitField
async_suspend = bit_field 1 1 32

abbrev pub in_dpm_list : BitField
in_dpm_list = bit_field 2 1 8

abbrev pub is_prepared : BitField
is_prepared = bit_field 3 1 8

abbrev pub is_suspended : BitField
is_suspended = bit_field 4 1 8

abbrev pub is_noirq_suspended : BitField
is_noirq_suspended = bit_field 5 1 8

abbrev pub is_late_suspended : BitField
is_late_suspended = bit_field 6 1 8

abbrev pub early_init : BitField
early_init = bit_field 7 1 8

abbrev pub direct_complete : BitField
direct_complete = bit_field 8 1 8

abbrev pub no_pm : BitField
no_pm = bit_field 9 1 8

abbrev pub wakeup_path : BitField
wakeup_path = bit_field 0 1 8

abbrev pub syscore : BitField
syscore = bit_field 1 1 8

abbrev pub no_pm_callbacks : BitField
no_pm_callbacks = bit_field 2 1 8

abbrev pub must_resume : BitField
must_resume = bit_field 3 1 32

abbrev pub may_skip_resume : BitField
may_skip_resume = bit_field 4 1 32

abbrev pub disable_depth : BitField
disable_depth = bit_field 0 3 32

abbrev pub idle_notification : BitField
idle_notification = bit_field 3 1 32

abbrev pub request_pending : BitField
request_pending = bit_field 4 1 32

abbrev pub deferred_resume : BitField
deferred_resume = bit_field 5 1 32

abbrev pub runtime_auto : BitField
runtime_auto = bit_field 6 1 32

abbrev pub ignore_children : BitField
ignore_children = bit_field 7 1 8

abbrev pub no_callbacks : BitField
no_callbacks = bit_field 8 1 32

abbrev pub irq_safe : BitField
irq_safe = bit_field 9 1 32

abbrev pub use_autosuspend : BitField
use_autosuspend = bit_field 10 1 32

abbrev pub timer_autosuspends : BitField
timer_autosuspends = bit_field 11 1 32

abbrev pub memalloc_noio : BitField
memalloc_noio = bit_field 12 1 32

abbrev pub bitfield_1 : Layout
bitfield_1 = record {
  bytes = 2;
  fields =
      can_wakeup ∷ async_suspend ∷ in_dpm_list ∷ is_prepared ∷ is_suspended ∷ is_noirq_suspended
      ∷ is_late_suspended ∷ early_init ∷ direct_complete ∷ no_pm ∷ [];
}

abbrev pub bitfield_2 : Layout
bitfield_2 = record {
  bytes = 1;
  fields = wakeup_path ∷ syscore ∷ no_pm_callbacks ∷ must_resume ∷ may_skip_resume ∷ [];
}

abbrev pub bitfield_3 : Layout
bitfield_3 = record {
  bytes = 2;
  fields =
      disable_depth ∷ idle_notification ∷ request_pending ∷ deferred_resume ∷ runtime_auto
      ∷ ignore_children ∷ no_callbacks ∷ irq_safe ∷ use_autosuspend ∷ timer_autosuspends
      ∷ memalloc_noio ∷ [];
}
