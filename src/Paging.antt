-- ===== src/Paging.antt =====
-- x86-64 page tables and their page heap, arch/x86_64/mem.c and arch/x86_64/heap.c.
pub mod Entry
pub mod Bits
pub mod Machine
pub mod Map
pub mod Tree
pub mod Ensure
pub mod Fresh
pub mod Walk
pub mod Leaf
pub mod Mapping
pub mod Range
pub mod Identity
pub mod Init
mod Tests
