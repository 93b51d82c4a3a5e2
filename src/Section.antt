-- ===== src/Section.antt =====
-- The 1 MB section table of the ARM port, arch/arm/mem.c.
pub mod Machine
pub mod Cache
pub mod Map
pub mod Descriptor
pub mod Maintenance
pub mod Region
pub mod Init
mod Tests
