-- ===== src/Ebpf.antt =====
-- The eBPF program, jbm-ebpf/src/main.rs. The kernel's hash map and the results of the BPF helpers are
-- parameters.
pub mod StartTimes
pub mod Probe
