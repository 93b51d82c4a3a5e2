-- ===== src/Util.antt =====
-- The helpers of util: byte routines (memcpy.c, memset.c) and the debug spinner (debug.c).
pub mod Bytes
pub mod Copy
pub mod Spinner
mod Tests
