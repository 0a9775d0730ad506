-- ===== src/Bindings.antt =====
-- What bindgen writes for the kernel's bit-fields (jbm-ebpf/src/vmlinux.rs).
mod Bits
pub mod BitfieldUnit
pub mod Layout
pub mod Structs
