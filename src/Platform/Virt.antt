-- ===== src/Platform/Virt.antt =====
-- platform/armv8/virt: platform.c, uart.c and mem.c.
use simbench.Base.{ℕ, ◌+◌, List, [], ◌∷◌}
use simbench.Platform.Bus.{M, Devices, load32, store32, or32, ◌>>=◌, ◌>>◌, modify}
use simbench.Platform.Gic.{
  gicd_ctlr, gicd_isenabler0, gicd_ipriorityr0, gicd_sgir, gicd_cpendsgir0, gicd_pidr0, gicd_pidr1,
  gicd_pidr2, gicd_pidr3, gicc_ctlr, gicc_pmr, gicc_iar, gicc_eoir, sgi_word,
}
use simbench.Platform.Uart.{uart_file}
use simbench.Printf.Stream.{printf_register_output, printf_register_debug}

abbrev pub uart0_base : ℕ
uart0_base = 0x9000000

abbrev pub gicd_base : ℕ
gicd_base = 0x8000000

abbrev pub gicc_base : ℕ
gicc_base = 0x8010000

-- The UART's region, then that of the interrupt controller.
abbrev pub device_info : List (ℕ × ℕ)
device_info = (0x9000000, 0x9000fff) ∷ ((0x8000000, 0x8020000) ∷ [])

unfoldable pub platform_init : M (Unit {0})
platform_init = do
  modify (λ s. record s { streams = printf_register_output uart_file s.streams })
  modify (λ s. record s { streams = printf_register_debug uart_file s.streams })

abbrev pub platform_get_null_devptr : ℕ
platform_get_null_devptr = uart0_base + 0x44

abbrev pub platform_get_null_devval : ℕ
platform_get_null_devval = 0

unfoldable pub platform_trigger_swi : Devices → M (Unit {0})
platform_trigger_swi devices = do
  id0 ← load32 devices (gicd_pidr0 gicd_base)
  id1 ← load32 devices (gicd_pidr1 gicd_base)
  id2 ← load32 devices (gicd_pidr2 gicd_base)
  id3 ← load32 devices (gicd_pidr3 gicd_base)
  store32 (gicd_isenabler0 gicd_base) 0xffff
  store32 (gicd_ipriorityr0 gicd_base) 0xa0a0a0a0
  store32 (gicc_pmr gicc_base) 0xf0
  or32 devices (gicd_ctlr gicd_base) 0x3
  or32 devices (gicc_ctlr gicc_base) 0x3
  store32 (gicd_sgir gicd_base) (sgi_word 0x2 0 0 0)

unfoldable pub platform_clear_swi : Devices → M (Unit {0})
platform_clear_swi devices = do
  intid ← load32 devices (gicc_iar gicc_base)
  store32 (gicd_cpendsgir0 gicd_base) 0xff
  store32 (gicc_eoir gicc_base) intid

unfoldable pub uart_putc : ℕ → M (Unit {0})
uart_putc c = store32 uart0_base c
