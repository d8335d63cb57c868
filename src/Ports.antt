-- ===== src/Ports.antt =====
-- runtime/Clib/cports.c: where the input ports read from, and how they are opened, positioned and closed.
pub mod Source
pub mod Open
mod Tests
