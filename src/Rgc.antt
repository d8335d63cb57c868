-- ===== src/Rgc.antt =====
-- runtime/Clib/crgc.c, and the input ports of runtime/Clib/cports.c: the buffer of a port, from which
-- the regular grammars of the reader take their tokens.
pub mod Run
pub mod Port
pub mod Fill
pub mod Insert
pub mod Blit
pub mod Number
pub mod Position
mod Tests
