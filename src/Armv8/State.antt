-- ===== src/Armv8/State.antt =====
-- The state of the ARMv8 port, and the page heap of arch/armv8/heap.c.
use simbench.Base.{ℕ, ◌+◌, ◌%◌, ◌^◌, ◌==◌, ltb, if◌then◌else◌, List, Option}
use simbench.Base.Outcome.{Outcome, aborts, pure, modify}

-- What an entry of `el0_sync_table` points to.
pub data Handler : Type 0 where
  handle_syscall exception_skip armv8_pabt_return : Handler

-- The linker's symbols and the platform's list of devices, each by its first and last address.
pub record Layout : Type 0 where
  pub text_start : ℕ
  pub text_end : ℕ
  pub data_start : ℕ
  pub data_end : ℕ
  pub heap_start : ℕ
  pub heap_end : ℕ
  pub devices : List (ℕ × ℕ)

-- `memory` gives the 64-bit word at each 8-aligned address. From `current_el` on, the fields are the
-- processor's: `current_el` is what the register CurrentEL reads as, and `pstate` is in the layout
-- of SPSR_EL1. `irq_calls` has the calls of the benchmark's interrupt handler, the last one first.
pub record Core : Type 0 where
  pub layout : Layout
  pub memory : ℕ → ℕ
  pub heap_ptr : ℕ
  pub l0_table : ℕ
  pub global_syscall_no : ℕ
  pub el0_sync_table : ℕ → Option Handler
  pub el0_irq_handler : Option ℕ
  pub backup_lr : ℕ
  pub irq_calls : List ℕ
  pub current_el : ℕ
  pub pstate : ℕ
  pub pc : ℕ
  pub esr : ℕ
  pub elr : ℕ
  pub spsr : ℕ
  pub sctlr : ℕ
  pub tcr : ℕ
  pub ttbr0 : ℕ
  pub cpacr : ℕ
  pub cntkctl : ℕ

abbrev pub M : Type 0 → Type 0
M A = Core → Outcome Core A

abbrev pub arch_abort : {A : Type 0} → M A
arch_abort s = aborts

abbrev pub get : {A : Type 0} → (Core → A) → M A
get field s = pure (field s) s

abbrev pub update : {A : Type 0} → (ℕ → A) → ℕ → A → ℕ → A
update f a v b = if b == a then v else f b

abbrev pub load : ℕ → M ℕ
load a = get (λ s. s.memory a)

abbrev pub store : ℕ → ℕ → M (Unit {0})
store a v = modify (λ s. record s { memory = update s.memory a v })

unfoldable pub armv8_heap_init : M (Unit {0})
armv8_heap_init = modify (λ s. record s { heap_ptr = s.layout.heap_start })

unfoldable pub armv8_heap_get_page : M ℕ
armv8_heap_get_page s =
    let next = (s.heap_ptr + 4096) % 2 ^ 64 in
    if ltb s.layout.heap_end next then aborts else pure s.heap_ptr (record s { heap_ptr = next })
