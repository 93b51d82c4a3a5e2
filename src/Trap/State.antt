-- ===== src/Trap/State.antt =====
-- The state of arch/x86_64/irq.c and arch/x86_64/arch.c.
use simbench.Base.{ℕ, Bool, List, Option}
use simbench.Trap.Gate.{Idt}
use simbench.Paging.Machine.{Machine}
pub use simbench.Base.Outcome.{Outcome, returns, aborts, unfinished, and_then, ◌>>=◌, ◌>>◌, modify}

-- What the function pointers point to.
pub data SyscallHandler : Type 0 where
  no_syscall default_syscall_handler syscall_skip_handler : SyscallHandler

pub data IrqHandler : Type 0 where
  no_irq default_irq_handler arch_irq_handler : IrqHandler

pub data UndefHandler : Type 0 where
  no_undef default_undef_handler undef_skip_handler : UndefHandler

-- `machine` has the memory, the heap and `page_fault_handler_fn`. `gates` is the table at
-- `idt_base`, the two values that `lidt` loads are `idt_base` and `idt_limit`, and `lapic` has the
-- register writes, the last one first.
pub record Cpu : Type 0 where
  pub machine : Machine
  pub gates : ℕ → Idt
  pub idt_base : ℕ
  pub idt_limit : ℕ
  pub lapic : List (ℕ × ℕ)
  pub syscall_handler_fn : SyscallHandler
  pub irq_handler_fn : IrqHandler
  pub undef_handler_fn : UndefHandler
  pub benchmark_irq_handler : Option ℕ
  pub interrupts : Bool
  pub use_framebuffer : Bool

abbrev pub M : Type 0 → Type 0
M A = Cpu → Outcome Cpu A
