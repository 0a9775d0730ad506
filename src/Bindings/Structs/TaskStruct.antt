-- ===== src/Bindings/Structs/TaskStruct.antt =====
-- The bit-fields of `task_struct` (jbm-ebpf/src/vmlinux.rs).
use jbm.Prelude.{[], ◌∷◌}
use jbm.Bindings.Layout.{BitField, bit_field, Layout}

abbrev pub sched_reset_on_fork : BitField
sched_reset_on_fork = bit_field 0 1 32

abbrev pub sched_contributes_to_load : BitField
sched_contributes_to_load = bit_field 1 1 32

abbrev pub sched_migrated : BitField
sched_migrated = bit_field 2 1 32

abbrev pub rh_reserved_sched_remote_wakeup : BitField
rh_reserved_sched_remote_wakeup = bit_field 3 1 32

abbrev pub sched_psi_wake_requeue : BitField
sched_psi_wake_requeue = bit_field 4 1 32

abbrev pub in_execve : BitField
in_execve = bit_field 32 1 32

abbrev pub in_iowait : BitField
in_iowait = bit_field 33 1 32

abbrev pub restore_sigmask : BitField
restore_sigmask = bit_field 34 1 32

abbrev pub in_user_fault : BitField
in_user_fault = bit_field 35 1 32

abbrev pub rh_reserved_memcg_kmem_skip_account : BitField
rh_reserved_memcg_kmem_skip_account = bit_field 36 1 32

abbrev pub no_cgroup_migration : BitField
no_cgroup_migration = bit_field 37 1 32

abbrev pub use_memdelay : BitField
use_memdelay = bit_field 38 1 32

abbrev pub frozen : BitField
frozen = bit_field 39 1 32

abbrev pub sched_remote_wakeup : BitField
sched_remote_wakeup = bit_field 40 1 32

abbrev pub in_memstall : BitField
in_memstall = bit_field 41 1 32

abbrev pub in_page_owner : BitField
in_page_owner = bit_field 42 1 32

abbrev pub pasid_activated : BitField
pasid_activated = bit_field 43 1 32

abbrev pub bitfield_1 : Layout
bitfield_1 = record {
  bytes = 6;
  fields =
      sched_reset_on_fork ∷ sched_contributes_to_load ∷ sched_migrated
      ∷ rh_reserved_sched_remote_wakeup ∷ sched_psi_wake_requeue ∷ in_execve ∷ in_iowait
      ∷ restore_sigmask ∷ in_user_fault ∷ rh_reserved_memcg_kmem_skip_account ∷ no_cgroup_migration
      ∷ use_memdelay ∷ frozen ∷ sched_remote_wakeup ∷ in_memstall ∷ in_page_owner ∷ pasid_activated
      ∷ [];
}
