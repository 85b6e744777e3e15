-- ===== src/Tests.antt =====
-- The theorems at concrete inputs: an orchestrator with two children, a small file system, a libbpf
-- whose objects hold one flag, and the events and connections of a short run.
mod Samples
mod Response
mod Build
mod Control
mod Startup
mod Threads
mod Session
mod Runner
