-- ===== src/Benchmarks.antt =====
-- The memory benchmarks of benchmarks/memory.
pub mod Port
pub mod Memory
pub mod Arm
pub mod Tlb
pub mod Tests
