-- ===== src/Vectors/Tests.antt =====
-- The ARM exceptions at concrete symbols.
use simbench.Base.{false, arith}
use simbench.Vectors.Install.{Symbols, Core}
use simbench.Vectors.Slots.{AreSlots, IsInstalled, install_all-IsInstalled}
use simbench.Vectors.Mask.{IsMasked, arch_irq-IsMasked}

abbrev symbols : Symbols
symbols = record {
  vectors_start = 0x8000;
  vectors_relocate = 0xffff0000;
  pabt_handler = 0x802c;
  dabt_handler = 0x8030;
  swi_handler = 0x8028;
  undef_handler = 0x8024;
  pabt_return = 0x9000;
  dabt_skip = 0x9010;
  swi_skip = 0x9020;
  undef_skip = 0x9030;
  default_handler = 0x9040;
}

abbrev core : Core
core = record { memory = λ a. 0; cpsr = 0x600001d3; arch_irq_handler = 0 }

symbols-AreSlots : AreSlots symbols
symbols-AreSlots = record {
  start_bound = omega arith;
  pabt_inside = omega arith;
  dabt_inside = omega arith;
  swi_inside = omega arith;
  undef_inside = omega arith;
  relocate_bound = omega arith;
  pabt_bound = omega arith;
  dabt_bound = omega arith;
  swi_bound = omega arith;
  undef_bound = omega arith;
  pabt_dabt = λ e. omega arith;
  pabt_swi = λ e. omega arith;
  pabt_undef = λ e. omega arith;
  dabt_swi = λ e. omega arith;
  dabt_undef = λ e. omega arith;
  swi_undef = λ e. omega arith;
}

install_all-IsInstalled_example : IsInstalled symbols core
install_all-IsInstalled_example = install_all-IsInstalled symbols core symbols-AreSlots

arch_irq-IsMasked_example : IsMasked false core
arch_irq-IsMasked_example = arch_irq-IsMasked false core (omega arith)
