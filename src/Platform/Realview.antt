-- ===== src/Platform/Realview.antt =====
-- platform/arm/realview-pba8: platform.c and mem.c, with constants.h.
use simbench.Base.{ℕ, ◌==◌, not, ◌||◌, if◌then◌else◌, List, [], ◌∷◌}
use simbench.Platform.Bus.{M, Devices, load32, store32, or32, ◌>>=◌, ◌>>◌, modify, arch_abort}
use simbench.Platform.Gic.{
  gicd_ctlr, gicd_isenabler0, gicd_ipriorityr0, gicd_sgir, gicd_cpendsgir0, gicd_pidr0, gicd_pidr1,
  gicd_pidr2, gicd_pidr3, gicc_ctlr, gicc_pmr, gicc_iar, gicc_eoir, sgi_word, gicd_isenabler1,
  gicd_ipriorityr1,
}
use simbench.Platform.Uart.{uart_file}
use simbench.Section.Map.{PhysMemInfo}
use simbench.Printf.Stream.{printf_register_output, printf_register_debug, printf_register_error}

abbrev pub gicd_base : ℕ
gicd_base = 0x1e001000

abbrev pub gicc_base : ℕ
gicc_base = 0x1e000000

abbrev pub uart_base : ℕ
uart_base = 0x10009000

abbrev pub device_info : List PhysMemInfo
device_info =
    record { phys_mem_start = 0x10009000; phys_mem_end = 0x10009fff }
    ∷ (record { phys_mem_start = 0x10000000; phys_mem_end = 0x10000fff }
        ∷ (record { phys_mem_start = 0x1e000000; phys_mem_end = 0x1e002000 } ∷ []))

unfoldable pub platform_init : M (Unit {0})
platform_init = do
  modify (λ s. record s { streams = printf_register_output uart_file s.streams })
  modify (λ s. record s { streams = printf_register_debug uart_file s.streams })
  modify (λ s. record s { streams = printf_register_error uart_file s.streams })

abbrev pub platform_get_null_devptr : ℕ
platform_get_null_devptr = 0x10000008

abbrev pub platform_get_null_devval : ℕ
platform_get_null_devval = 0xff

-- What follows the reads of the identity.
unfoldable pub enable_and_signal : Devices → M (Unit {0})
enable_and_signal devices = do
  store32 (gicd_isenabler0 gicd_base) 0xffffffff
  store32 (gicd_isenabler1 gicd_base) 0xffffffff
  store32 (gicd_ipriorityr0 gicd_base) 0xa0a0a0a0
  store32 (gicd_ipriorityr1 gicd_base) 0xa0a0a0a0
  store32 (gicc_pmr gicc_base) 0xf0
  or32 devices (gicd_ctlr gicd_base) 0x3
  or32 devices (gicc_ctlr gicc_base) 0x3
  store32 (gicd_sgir gicd_base) (sgi_word 0x0 1 0 32)

unfoldable pub platform_trigger_swi : Devices → M (Unit {0})
platform_trigger_swi devices = do
  id0 ← load32 devices (gicd_pidr0 gicd_base)
  id1 ← load32 devices (gicd_pidr1 gicd_base)
  id2 ← load32 devices (gicd_pidr2 gicd_base)
  id3 ← load32 devices (gicd_pidr3 gicd_base)
  if not (id0 == 0x90) || not (id1 == 0x13) || not (id2 == 0x4) || not (id3 == 0x0)
      then arch_abort
      else enable_and_signal devices

unfoldable pub platform_clear_swi : Devices → M (Unit {0})
platform_clear_swi devices = do
  intid ← load32 devices (gicc_iar gicc_base)
  store32 (gicd_cpendsgir0 gicd_base) 0xff
  store32 (gicc_eoir gicc_base) intid

unfoldable pub uart_putc : ℕ → M (Unit {0})
uart_putc c = store32 uart_base c
