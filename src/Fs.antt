-- ===== src/Fs.antt =====
-- The file systems' library (lib/libvfs): the block cache.
pub mod Cache
