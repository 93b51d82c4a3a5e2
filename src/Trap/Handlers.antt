-- ===== src/Trap/Handlers.antt =====
-- The handlers of arch/x86_64/irq.c, exception.c and arch.c and their installation.
use simbench.Base.{ℕ, true, false, Option, none, some}
use simbench.Paging.Machine.{
  FaultHandler, default_page_fault_handler, return_handler, mem_skip_handler,
}
use simbench.Trap.State.{
  SyscallHandler, default_syscall_handler, syscall_skip_handler, IrqHandler, default_irq_handler,
  arch_irq_handler, UndefHandler, default_undef_handler, undef_skip_handler, aborts, M, modify,
}

unfoldable pub irq_install_syscall_handler : SyscallHandler → M (Unit {0})
irq_install_syscall_handler handler_fn = modify (λ s. record s { syscall_handler_fn = handler_fn })

unfoldable pub irq_install_page_fault_handler : FaultHandler → M (Unit {0})
irq_install_page_fault_handler handler_fn =
    modify (λ s. record s { machine = record s.machine { page_fault_handler_fn = handler_fn } })

unfoldable pub irq_install_irq_handler : IrqHandler → M (Unit {0})
irq_install_irq_handler handler_fn = modify (λ s. record s { irq_handler_fn = handler_fn })

unfoldable pub irq_install_undef_handler : UndefHandler → M (Unit {0})
irq_install_undef_handler handler_fn = modify (λ s. record s { undef_handler_fn = handler_fn })

unfoldable pub irq_reset_syscall_handler : M (Unit {0})
irq_reset_syscall_handler = modify (λ s. record s { syscall_handler_fn = default_syscall_handler })

unfoldable pub irq_reset_page_fault_handler : M (Unit {0})
irq_reset_page_fault_handler = modify (λ s. record s {
  machine = record s.machine { page_fault_handler_fn = default_page_fault_handler };
})

unfoldable pub irq_reset_irq_handler : M (Unit {0})
irq_reset_irq_handler = modify (λ s. record s { irq_handler_fn = default_irq_handler })

unfoldable pub irq_reset_undef_handler : M (Unit {0})
irq_reset_undef_handler = modify (λ s. record s { undef_handler_fn = default_undef_handler })

unfoldable pub arch_ifault_install_return : M (Unit {0})
unfolding irq_install_page_fault_handler
arch_ifault_install_return = irq_install_page_fault_handler return_handler

unfoldable pub arch_ifault_install_break : M (Unit {0})
arch_ifault_install_break s = aborts

unfoldable pub arch_dfault_install_skip : M (Unit {0})
unfolding irq_install_page_fault_handler
arch_dfault_install_skip = irq_install_page_fault_handler mem_skip_handler

unfoldable pub arch_syscall_install_skip : M (Unit {0})
unfolding irq_install_syscall_handler
arch_syscall_install_skip = irq_install_syscall_handler syscall_skip_handler

unfoldable pub arch_undef_install_skip : M (Unit {0})
unfolding irq_install_undef_handler
arch_undef_install_skip = irq_install_undef_handler undef_skip_handler

unfoldable pub arch_irq_enable : M (Unit {0})
arch_irq_enable = modify (λ s. record s { interrupts = true })

unfoldable pub arch_irq_disable : M (Unit {0})
arch_irq_disable = modify (λ s. record s { interrupts = false })

-- The branch of `arch_irq_install_handler`.
unfoldable pub install_by : Option ℕ → M (Unit {0})
unfolding irq_reset_irq_handler irq_install_irq_handler
install_by none = irq_reset_irq_handler
install_by (some handler) = irq_install_irq_handler arch_irq_handler

unfoldable pub arch_irq_install_handler : Option ℕ → M (Unit {0})
unfolding install_by
arch_irq_install_handler handler s =
    install_by handler (record s { benchmark_irq_handler = handler })
