-- ===== src/Trap/Start.antt =====
-- `irq_init` of arch/x86_64/irq.c and `arch_init` of arch/x86_64/arch.c.
use simbench.Base.{ℕ, zero, suc, ◌*◌, ◌==◌, Bool, true, false, if◌then◌else◌, Option, none, some}
use simbench.Paging.Machine.{Machine, Symbols, heap_alloc_page, heap_init}
use simbench.Paging.Map.{early_mem_init}
use simbench.Trap.Gate.{Idt, set_idt}
use simbench.Trap.State.{Cpu, Outcome, returns, aborts, M, ◌>>=◌, ◌>>◌, modify}
use simbench.Trap.Apic.{lapic_init}
use simbench.Trap.Handlers.{
  irq_reset_syscall_handler, irq_reset_page_fault_handler, irq_reset_irq_handler,
  irq_reset_undef_handler,
}

-- The addresses of the entry points in arch/x86_64/trap.S.
pub record Routines : Type 0 where
  pub trap_unknown : ℕ
  pub trap_unknown_arg : ℕ
  pub trap_page_fault : ℕ
  pub trap_syscall : ℕ
  pub trap_irq : ℕ
  pub trap_undef : ℕ
  pub trap_gpf : ℕ
  pub trap_timer : ℕ

abbrev pub put_gate : ℕ → Idt → (ℕ → Idt) → ℕ → Idt
put_gate i g gates j = if j == i then g else gates j

-- The loop of `irq_init` over the gates from `i` on.
unfoldable pub fill_gates : ℕ → ℕ → Idt → (ℕ → Idt) → ℕ → Idt
fill_gates zero i g gates = gates
fill_gates (suc rounds) i g gates = fill_gates rounds (suc i) g (put_gate i g gates)

abbrev pub gate : ℕ → ℕ → Bool → M (Unit {0})
gate i fn allow_user = modify (λ s. record s { gates = put_gate i (set_idt fn allow_user) s.gates })

unfoldable pub set_gates : Routines → M (Unit {0})
set_gates r = do
  modify (λ s. record s { gates = fill_gates 0x100 0 (set_idt r.trap_unknown false) s.gates })
  gate 0x06 r.trap_undef false
  gate 0x08 r.trap_unknown_arg false
  gate 0x08 r.trap_unknown_arg false
  gate 0x0a r.trap_unknown_arg false
  gate 0x0b r.trap_unknown_arg false
  gate 0x0c r.trap_unknown_arg false
  gate 0x0d r.trap_gpf false
  gate 0x0e r.trap_page_fault false
  gate 0x11 r.trap_unknown_arg false
  gate 0x1e r.trap_unknown_arg false
  gate 0x20 r.trap_timer false
  gate 0x30 r.trap_irq false
  gate 0x80 r.trap_syscall true

-- A call of the memory code of the same port.
abbrev pub on_result : {A : Type 0} → Option (A × Machine) → Cpu → Outcome Cpu A
on_result none s = aborts
on_result (some (a, m)) s = returns a (record s { machine = m })

abbrev pub on_machine : {A : Type 0} → (Machine → Option (A × Machine)) → M A
on_machine f s = on_result (f s.machine) s

-- `lidt` with the size of a gate, 16, times 0x100.
abbrev pub load_idt : ℕ → M (Unit {0})
load_idt base = modify (λ s. record s { idt_base = base; idt_limit = 16 * 0x100 })

-- `reads` and `fuel` are those of `lapic_init`. The table is `gates`, behind the page's address.
unfoldable pub irq_init : Routines → (ℕ → ℕ) → ℕ → M (Unit {0})
irq_init r reads fuel = do
  base ← on_machine heap_alloc_page
  set_gates r
  load_idt base
  lapic_init reads fuel
  irq_reset_syscall_handler
  irq_reset_page_fault_handler
  irq_reset_irq_handler
  irq_reset_undef_handler

unfoldable pub arch_init : Symbols → Routines → (ℕ → ℕ) → ℕ → M (Unit {0})
arch_init sym r reads fuel = do
  on_machine (heap_init sym)
  on_machine early_mem_init
  irq_init r reads fuel
