-- ===== src/Cunicode.antt =====
-- runtime/Clib/cunicode.c: strings of 16-bit units, and their encoding as UTF-8.
pub mod Build
pub mod Compare
pub mod Utf8
mod Tests
