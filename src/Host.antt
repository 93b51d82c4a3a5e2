-- ===== src/Host.antt =====
-- The timer on the host, host/main.c.
pub mod Input
pub mod Timer
pub mod Times
pub mod Protocol
mod Tests
