-- ===== src/Vectors/Install.antt =====
-- The installation of handlers and the interrupt mask, arch/arm/exception.c.
use simbench.Base.{ℕ, ◌+◌, ◌-◌, ◌*◌, ◌/◌, ◌%◌, ◌^◌, ◌==◌, Bool, if◌then◌else◌, bit_and, bit_or}

-- The linker's symbols and the routines of arch/arm/vectors.S, all 32-bit addresses.
pub record Symbols : Type 0 where
  pub vectors_start : ℕ
  pub vectors_relocate : ℕ
  pub pabt_handler : ℕ
  pub dabt_handler : ℕ
  pub swi_handler : ℕ
  pub undef_handler : ℕ
  pub pabt_return : ℕ
  pub dabt_skip : ℕ
  pub swi_skip : ℕ
  pub undef_skip : ℕ
  pub default_handler : ℕ

-- `memory` gives the 32-bit word at each address.
pub record Core : Type 0 where
  pub memory : ℕ → ℕ
  pub cpsr : ℕ
  pub arch_irq_handler : ℕ

abbrev pub put : (ℕ → ℕ) → ℕ → ℕ → ℕ → ℕ
put memory d w a = if a == d then w else memory a

-- `vector_location` of the `install_...` functions: a difference and a sum of uint32_t.
unfoldable pub vector_location : Symbols → ℕ → ℕ
vector_location sym handler =
    ((handler + 2 ^ 32 - sym.vectors_start) % 2 ^ 32 + sym.vectors_relocate) % 2 ^ 32

unfoldable pub install : Symbols → ℕ → ℕ → Core → Core
unfolding vector_location
install sym handler location s = record s {
  memory = put s.memory (vector_location sym handler) location;
}

unfoldable pub install_pabt : Symbols → ℕ → Core → Core
unfolding install
install_pabt sym = install sym sym.pabt_handler

unfoldable pub install_dabt : Symbols → ℕ → Core → Core
unfolding install
install_dabt sym = install sym sym.dabt_handler

unfoldable pub install_swi : Symbols → ℕ → Core → Core
unfolding install
install_swi sym = install sym sym.swi_handler

unfoldable pub install_undef : Symbols → ℕ → Core → Core
unfolding install
install_undef sym = install sym sym.undef_handler

unfoldable pub arch_ifault_install_return : Symbols → Core → Core
unfolding install_pabt
arch_ifault_install_return sym = install_pabt sym sym.pabt_return

unfoldable pub arch_ifault_install_break : Symbols → Core → Core
unfolding install_pabt
arch_ifault_install_break sym = install_pabt sym sym.default_handler

unfoldable pub arch_dfault_install_skip : Symbols → Core → Core
unfolding install_dabt
arch_dfault_install_skip sym = install_dabt sym sym.dabt_skip

unfoldable pub arch_syscall_install_skip : Symbols → Core → Core
unfolding install_swi
arch_syscall_install_skip sym = install_swi sym sym.swi_skip

unfoldable pub arch_undef_install_skip : Symbols → Core → Core
unfolding install_undef
arch_undef_install_skip sym = install_undef sym sym.undef_skip

unfoldable pub arch_irq_install_handler : ℕ → Core → Core
arch_irq_install_handler handler s = record s { arch_irq_handler = handler }

-- MODE_IRQ_DISABLE, its complement, and `msr CPSR_c`, which writes the low byte.
abbrev pub mode_irq_disable : ℕ
mode_irq_disable = 2 ^ 7

abbrev pub not_mode_irq_disable : ℕ
not_mode_irq_disable = 0xffffff7f

abbrev pub msr_c : ℕ → ℕ → ℕ
msr_c old new = old / 2 ^ 8 * 2 ^ 8 + new % 2 ^ 8

-- `cpsie i` and `cpsid i` of ARMv7.
abbrev pub cpsie_i : ℕ → ℕ
cpsie_i cpsr = bit_and cpsr not_mode_irq_disable

abbrev pub cpsid_i : ℕ → ℕ
cpsid_i cpsr = bit_or cpsr mode_irq_disable

-- The flag is ARCH_ARMV7.
unfoldable pub arch_irq_enable : Bool → Core → Core
arch_irq_enable armv7 s = record s {
  cpsr = if armv7 then cpsie_i s.cpsr else msr_c s.cpsr (bit_and s.cpsr not_mode_irq_disable);
}

unfoldable pub arch_irq_disable : Bool → Core → Core
arch_irq_disable armv7 s = record s {
  cpsr = if armv7 then cpsid_i s.cpsr else msr_c s.cpsr (bit_or s.cpsr mode_irq_disable);
}
