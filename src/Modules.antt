-- ===== src/Modules.antt =====
-- The defence modules, modules/src/*.rs, one file each.
pub mod RenameEntropy
pub mod ExecBlock
pub mod Shield
pub mod MountSecure
pub mod StrictWx
pub mod PtraceBlock
pub mod DumpRestrict
pub mod UsernsRestrict
pub mod MadviseRatelimit
pub mod IoRestrict
