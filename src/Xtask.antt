-- ===== src/Xtask.antt =====
-- The crate xtask: the task runner that builds a virtual machine, tests the daemon in it and reports.
pub mod Machine
pub mod Scripts
pub mod Utils
pub mod Vm
pub mod Trace
pub mod Report
pub mod Runner
pub mod Router
