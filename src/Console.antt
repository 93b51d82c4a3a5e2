-- ===== src/Console.antt =====
-- The text console of the x86-64 platforms, platform/x86_64/native/console.c (the copy under qemu is
-- the same).
pub mod Screen
pub mod Scroll
pub mod Shown
mod Tests
