-- ===== src/Decode.antt =====
-- The instruction decoder of the x86-64 data-fault handler, arch/x86_64/decode.c.
pub mod Types
pub mod Cursor
pub mod Operands
pub mod Inst
pub mod Tests
pub mod Registers
pub mod Reads
pub mod Parts
pub mod Length
pub mod Memory
