-- ===== src/Armv8/Exception.antt =====
-- Exceptions of the ARMv8 port: arch/armv8/exception.c and the paths of vectors.S to it.
use simbench.Base.{
  ℕ, ◌+◌, ◌*◌, ◌/◌, ◌%◌, ◌^◌, ◌==◌, ◌&&◌, ◌||◌, Bool, if◌then◌else◌, ◌∷◌, Option, none, some,
  bit_and,
}
use simbench.Base.Outcome.{◌>>=◌, ◌>>◌, pure, modify}
use simbench.Armv8.State.{
  Handler, handle_syscall, exception_skip, armv8_pabt_return, M, arch_abort, get, update,
}
use simbench.Armv8.Syscall.{armv8_handle_syscall}

abbrev pub ec_unknown : ℕ
ec_unknown = 0

abbrev pub ec_syscall : ℕ
ec_syscall = 0x15

-- The function `handle_syscall`, and the switch in it. It ends without a return on every other
-- syndrome: `undefined` is what its caller then reads.
abbrev pub by_syndrome : ℕ → ℕ → ℕ → M ℕ
by_syndrome undefined fuel syndrome =
    if syndrome == 0
    then pure 0
    else if syndrome == 1
    then armv8_handle_syscall fuel
    else pure undefined

unfoldable pub run_handle_syscall : ℕ → ℕ → M ℕ
unfolding armv8_handle_syscall
run_handle_syscall undefined fuel = do
  esr ← get (λ s. s.esr % 2 ^ 32)
  by_syndrome undefined fuel (bit_and esr 0x1ffffff)

-- The function `exception_skip`, which keeps ELR in 32 bits.
unfoldable pub run_exception_skip : M ℕ
run_exception_skip = do modify (λ s. record s { elr = (s.elr % 2 ^ 32 + 4) % 2 ^ 32 }); pure 0

-- `armv8_pabt_return` of reset.S.
unfoldable pub run_pabt_return : M ℕ
run_pabt_return = do modify (λ s. record s { elr = s.backup_lr }); pure 0

unfoldable pub armv8_install_sync_handler : ℕ → Handler → M (Unit {0})
armv8_install_sync_handler ec handler =
    modify (λ s. record s { el0_sync_table = update s.el0_sync_table ec (some handler) })

unfoldable pub armv8_install_syscall_handler : M (Unit {0})
unfolding armv8_install_sync_handler
armv8_install_syscall_handler = armv8_install_sync_handler ec_syscall handle_syscall

unfoldable pub arch_ifault_install_return : M (Unit {0})
unfolding armv8_install_sync_handler
arch_ifault_install_return = armv8_install_sync_handler 0x20 armv8_pabt_return

unfoldable pub arch_ifault_install_break : M (Unit {0})
arch_ifault_install_break = arch_abort

unfoldable pub arch_dfault_install_skip : M (Unit {0})
unfolding armv8_install_sync_handler
arch_dfault_install_skip = armv8_install_sync_handler 0x24 exception_skip

unfoldable pub arch_syscall_install_skip : M (Unit {0})
arch_syscall_install_skip = pure tt

unfoldable pub arch_undef_install_skip : M (Unit {0})
unfolding armv8_install_sync_handler
arch_undef_install_skip = armv8_install_sync_handler ec_unknown exception_skip

unfoldable pub arch_irq_install_handler : Option ℕ → M (Unit {0})
arch_irq_install_handler handler = modify (λ s. record s { el0_irq_handler = handler })

abbrev pub call_irq_handler : Option ℕ → M ℕ
call_irq_handler none = pure 1
call_irq_handler (some handler) = do
  modify (λ s. record s { irq_calls = handler ∷ s.irq_calls })
  pure 0

unfoldable pub el1_lower_irq_handler : M ℕ
el1_lower_irq_handler = do handler ← get (λ s. s.el0_irq_handler); call_irq_handler handler

-- The call through an entry of the table; an empty one gives 1.
unfoldable pub call_handler : ℕ → ℕ → Option Handler → M ℕ
unfolding run_handle_syscall run_exception_skip run_pabt_return
call_handler undefined fuel none = pure 1
call_handler undefined fuel (some handle_syscall) = run_handle_syscall undefined fuel
call_handler undefined fuel (some exception_skip) = run_exception_skip
call_handler undefined fuel (some armv8_pabt_return) = run_pabt_return

unfoldable pub el1_lower_sync_handler : ℕ → ℕ → M ℕ
unfolding call_handler
el1_lower_sync_handler undefined fuel = do
  handler ← get (λ s. s.el0_sync_table (s.esr % 2 ^ 32 / 2 ^ 26))
  call_handler undefined fuel handler

-- `eret`.
abbrev pub eret : M (Unit {0})
eret = modify (λ s. record s { pstate = s.spsr; pc = s.elr })

-- The end of each path of vectors.S.
abbrev pub return_or_abort : ℕ → M (Unit {0})
return_or_abort failed = if failed == 0 then eret else arch_abort

-- The exception level that PSTATE has, and whether the vector of a synchronous exception is one of the
-- two that call the handler: that of level 0 and that of level 1 with SP_EL0, which have the same code.
-- That of level 1 with SP_EL1 is `arch_abort`.
abbrev pub level_of : ℕ → ℕ
level_of pstate = pstate / 4 % 4

unfoldable pub is_handled : ℕ → Bool
is_handled pstate = level_of pstate == 0 || level_of pstate == 1 && pstate % 2 == 0

-- Both paths of vectors.S for an exception of class `ec` with syndrome `iss` from a 32-bit instruction,
-- where X30 holds `lr` and `elr` is the return address.
unfoldable pub synchronous_path : ℕ → ℕ → ℕ → ℕ → ℕ → ℕ → M (Unit {0})
unfolding el1_lower_sync_handler
synchronous_path undefined fuel ec iss lr elr = do
  modify (λ s. record s {
    esr = ec * 2 ^ 26 + 2 ^ 25 + iss;
    elr = elr;
    spsr = s.pstate;
    backup_lr = lr;
  })
  failed ← el1_lower_sync_handler undefined fuel
  return_or_abort failed

-- The processor takes the exception.
unfoldable pub synchronous_vector : ℕ → ℕ → ℕ → ℕ → ℕ → ℕ → M (Unit {0})
unfolding synchronous_path is_handled
synchronous_vector undefined fuel ec iss lr elr s =
    (if is_handled s.pstate then synchronous_path undefined fuel ec iss lr elr else arch_abort) s

-- The path of an interrupt at level 0. Both vectors of level 1 are `arch_abort`.
unfoldable pub irq_path : ℕ → M (Unit {0})
unfolding el1_lower_irq_handler
irq_path elr = do
  modify (λ s. record s { elr = elr; spsr = s.pstate })
  failed ← el1_lower_irq_handler
  return_or_abort failed

unfoldable pub irq_vector : ℕ → M (Unit {0})
unfolding irq_path
irq_vector elr s = (if level_of s.pstate == 0 then irq_path elr else arch_abort) s
