-- ===== src/Libc.antt =====
-- The C library, lib/libc.
pub mod Gmtime
pub mod Utf8
pub mod Strtoul
pub mod Strtol
