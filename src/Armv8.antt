-- ===== src/Armv8.antt =====
-- The ARMv8 port, arch/armv8: heap, translation tables, system calls and exceptions.
pub mod State
pub mod Table
pub mod Memory
pub mod Syscall
pub mod Exception
pub mod Arch
pub mod Frame
pub mod Serve
pub mod Mode
pub mod Runs
pub mod Leaf
pub mod Entries
pub mod Tree
pub mod Link
pub mod Ensure
pub mod Walk
pub mod Levels
pub mod Translate
pub mod Range
pub mod Regions
pub mod Init
pub mod Root
pub mod Boot
pub mod Identity
pub mod Skip
mod Tests
