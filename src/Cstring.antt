-- ===== src/Cstring.antt =====
-- runtime/Clib/cstring.c: the byte strings of the runtime.
pub mod Compare
pub mod Equal
pub mod Build
pub mod Digits
pub mod Escape
mod Tests
