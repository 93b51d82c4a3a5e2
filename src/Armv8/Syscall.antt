-- ===== src/Armv8/Syscall.antt =====
-- The system calls of arch/armv8/syscall.c, on the side that serves them.
use simbench.Base.{ℕ, ◌*◌, ◌%◌, ◌^◌, ◌==◌, if◌then◌else◌, bit_and, bit_or}
use simbench.Base.Outcome.{◌>>=◌, ◌>>◌, pure, modify}
use simbench.Armv8.State.{M, get}
use simbench.Armv8.Memory.{syscall_mem_init, syscall_mem_mmu_enable, syscall_mem_mmu_disable}

-- The flags, and the complements of ARMV8_SCTLR_I_FLAG and of `3 << 2` in 32 bits.
abbrev pub sctlr_i : ℕ
sctlr_i = 2 ^ 12

abbrev pub not_sctlr_i : ℕ
not_sctlr_i = 0xffffefff

abbrev pub not_mode : ℕ
not_mode = 0xfffffff3

unfoldable pub syscall_irq_disable : M ℕ
syscall_irq_disable = do
  modify (λ s. record s { sctlr = bit_or (s.sctlr % 2 ^ 32) sctlr_i })
  pure 0

unfoldable pub syscall_irq_enable : M ℕ
syscall_irq_enable = do
  modify (λ s. record s { sctlr = bit_and (s.sctlr % 2 ^ 32) not_sctlr_i })
  pure 0

unfoldable pub syscall_priv_enter : M ℕ
syscall_priv_enter = do
  modify (λ s. record s { spsr = bit_or (bit_and (s.spsr % 2 ^ 32) not_mode) (1 * 2 ^ 2) })
  pure 0

unfoldable pub syscall_priv_leave : M ℕ
syscall_priv_leave = do
  modify (λ s. record s { spsr = bit_or (bit_and (s.spsr % 2 ^ 32) not_mode) (0 * 2 ^ 2) })
  pure 0

-- The switch; `fuel` is that of `syscall_mem_init`.
unfoldable pub serve : ℕ → ℕ → M ℕ
unfolding syscall_irq_disable syscall_irq_enable syscall_mem_init syscall_mem_mmu_enable
    syscall_mem_mmu_disable syscall_priv_enter syscall_priv_leave
serve fuel call_no =
    if call_no == 2
    then syscall_irq_disable
    else if call_no == 1
    then syscall_irq_enable
    else if call_no == 3
    then syscall_mem_init fuel
    else if call_no == 4
    then syscall_mem_mmu_enable
    else if call_no == 5
    then syscall_mem_mmu_disable
    else if call_no == 8
    then syscall_priv_enter
    else if call_no == 9
    then syscall_priv_leave
    else pure 1

unfoldable pub armv8_handle_syscall : ℕ → M ℕ
unfolding serve
armv8_handle_syscall fuel = do call_no ← get (λ s. s.global_syscall_no); serve fuel call_no
