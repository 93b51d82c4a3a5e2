-- ===== src/Armv8/Arch.antt =====
-- The port's operations: arch/armv8/arch.c, armv8.c, and the callers of system calls in syscall.c,
-- exception.c and mem.c.
use simbench.Base.{ℕ, ◌%◌, ◌^◌, ◌==◌, Bool, if◌then◌else◌, bit_and, bit_or}
use simbench.Base.Outcome.{◌>>=◌, ◌>>◌, pure, modify}
use simbench.Armv8.State.{Core, M, arch_abort, get, armv8_heap_init}
use simbench.Armv8.Exception.{armv8_install_syscall_handler, synchronous_vector, ec_syscall}

-- The complement of the two stack alignment checks in 32 bits.
abbrev pub not_alignment : ℕ
not_alignment = 0xffffffe7

unfoldable pub arch_init : M (Unit {0})
unfolding armv8_install_syscall_handler armv8_heap_init
arch_init = do
  modify (λ s. record s { cpacr = bit_or (2 ^ 20) (2 ^ 21) })
  modify (λ s. record s {
    sctlr =
        bit_or (bit_or (bit_or (bit_and (s.sctlr % 2 ^ 32) not_alignment) (2 ^ 26)) (2 ^ 12))
          (2 ^ 2);
  })
  armv8_install_syscall_handler
  modify (λ s. record s { cntkctl = bit_or (s.cntkctl % 2 ^ 32) 1 })
  armv8_heap_init

unfoldable pub armv8_get_current_el : Core → ℕ
armv8_get_current_el s = s.current_el % 2 ^ 32

unfoldable pub armv8_in_el1 : Core → Bool
unfolding armv8_get_current_el
armv8_in_el1 s = armv8_get_current_el s == 1

-- What a system call depends on besides the state: the value of `handle_syscall` without a return,
-- the fuel of `syscall_mem_init`, X30 and the address behind the `svc`.
pub record Site : Type 0 where
  pub undefined : ℕ
  pub fuel : ℕ
  pub lr : ℕ
  pub next : ℕ

unfoldable pub armv8_syscall : Site → ℕ → M (Unit {0})
unfolding synchronous_vector
armv8_syscall site call_no = do
  modify (λ s. record s { global_syscall_no = call_no })
  synchronous_vector site.undefined site.fuel ec_syscall 1 site.lr site.next

-- `svc #0`.
unfoldable pub arch_syscall : Site → M (Unit {0})
unfolding synchronous_vector
arch_syscall site = synchronous_vector site.undefined site.fuel ec_syscall 0 site.lr site.next

unfoldable pub arch_priv_enter : Site → M (Unit {0})
unfolding armv8_syscall
arch_priv_enter site = armv8_syscall site 8

unfoldable pub arch_priv_leave : Site → M (Unit {0})
unfolding armv8_syscall
arch_priv_leave site = armv8_syscall site 9

-- The guard in front of the call of the two functions on interrupts.
abbrev pub unless_el1 : M (Unit {0}) → Bool → M (Unit {0})
unless_el1 m in_el1 = if in_el1 then arch_abort else m

unfoldable pub arch_irq_enable : Site → M (Unit {0})
unfolding armv8_in_el1 armv8_syscall
arch_irq_enable site = do in_el1 ← get armv8_in_el1; unless_el1 (armv8_syscall site 1) in_el1

unfoldable pub arch_irq_disable : Site → M (Unit {0})
unfolding armv8_in_el1 armv8_syscall
arch_irq_disable site = do in_el1 ← get armv8_in_el1; unless_el1 (armv8_syscall site 2) in_el1

unfoldable pub mem_init : Site → M (Unit {0})
unfolding armv8_syscall
mem_init site = armv8_syscall site 3

unfoldable pub mem_reset : Site → M (Unit {0})
unfolding mem_init
mem_reset site = mem_init site

unfoldable pub mem_mmu_enable : Site → M (Unit {0})
unfolding armv8_syscall
mem_mmu_enable site = armv8_syscall site 4

unfoldable pub mem_mmu_disable : Site → M (Unit {0})
unfolding armv8_syscall
mem_mmu_disable site = armv8_syscall site 5

unfoldable pub mem_tlb_flush : M (Unit {0})
mem_tlb_flush = pure tt

unfoldable pub mem_tlb_evict : ℕ → M (Unit {0})
mem_tlb_evict ptr = pure tt

unfoldable pub mem_cache_flush : Site → M (Unit {0})
unfolding armv8_syscall
mem_cache_flush site = do armv8_syscall site 7; armv8_syscall site 6
