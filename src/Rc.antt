-- ===== src/Rc.antt =====
-- The compressors of lib/librc.
pub mod Zle
