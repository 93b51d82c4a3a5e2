-- ===== src/Trap.antt =====
-- Interrupts and exceptions of the x86-64 port, arch/x86_64/irq.c, exception.c and arch.c.
pub mod Gate
pub mod State
pub mod Apic
pub mod Handlers
pub mod Start
pub mod Table
pub mod Skip
pub mod Command
pub mod Tests
