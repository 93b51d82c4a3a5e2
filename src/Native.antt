-- ===== src/Native.antt =====
-- platform/x86_64/native with arch/x86_64/pit.c, and platform/x86_64/qemu.
pub mod Ports
pub mod Serial
pub mod Timer
pub mod Init
pub mod Up
pub mod Tests
