-- ===== src/Vectors.antt =====
-- Exceptions of the ARM port, arch/arm/exception.c.
pub mod Install
pub mod Slots
pub mod Mask
mod Tests
