-- ===== src/Printf.antt =====
-- The formatted output of util/printf.c.
pub mod Buffer
pub mod Format
pub mod Writes
pub mod Number
pub mod Digits
pub mod Stream
pub mod Literal
pub mod Bounds
mod Tests
