-- ===== src/Tests.antt =====
-- Concrete inputs: runs of the model, and the theorems at inputs that meet their conditions.
mod Report
mod Bindings
mod Matching
mod Stream
mod Ebpf
mod Intake
mod Monitor
mod Rounds
mod Swaps
mod Complete
mod EndToEnd
mod Program
mod Provider
mod Xtask
