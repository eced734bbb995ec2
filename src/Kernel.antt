-- ===== src/Kernel.antt =====
-- The kernel (kernel/).
pub mod Palloc
pub mod State
pub mod Ready
pub mod Sync
pub mod Ipc
pub mod Thread
