-- ===== src/Platform/Arndale.antt =====
-- platform/arm/ArndaleBoard: platform.c and mem.c, with constants.h.
use simbench.Base.{ℕ, ◌+◌, ◌-◌, ◌==◌, not, ◌||◌, if◌then◌else◌, List, [], ◌∷◌, ◌++◌}
use simbench.Platform.Bus.{
  M, Devices, load32, store32, or32, ◌>>=◌, ◌>>◌, modify, arch_abort, returns, pure,
}
use simbench.Platform.Gic.{
  gicd_ctlr, gicd_igroupr0, gicd_isenabler0, gicd_ipriorityr0, gicd_sgir, gicd_cpendsgir0,
  gicd_pidr0, gicd_pidr1, gicd_pidr2, gicd_pidr3, gicc_ctlr, gicc_pmr, gicc_iar, gicc_eoir,
  gicc_iidr, sgi_word,
}
use simbench.Platform.Uart.{uart_file, exynos_putc}
use simbench.Section.Map.{PhysMemInfo}
use simbench.Printf.Stream.{printf_register_output, printf_register_debug, printf_register_error}

abbrev pub gicd_base : ℕ
gicd_base = 0x10481000

abbrev pub gicc_base : ℕ
gicc_base = 0x10482000

abbrev pub intcomb_ies5 : ℕ
intcomb_ies5 = 0x10440000 + 0x50

abbrev pub tty_uart_base : ℕ
tty_uart_base = 0x12c20000

abbrev pub gpio_base : ℕ
gpio_base = 0x11400000

abbrev pub device_info : List PhysMemInfo
device_info =
    record { phys_mem_start = 0x12c20000; phys_mem_end = 0x12c2ffff }
    ∷ (record { phys_mem_start = 0x10481000; phys_mem_end = 0x10489000 } ∷ [])

-- The registers that are set up once both identities are right.
unfoldable pub enable_swi : Devices → M (Unit {0})
enable_swi devices = do
  store32 intcomb_ies5 0x101
  store32 (gicd_isenabler0 gicd_base) 0xffff
  store32 (gicd_ipriorityr0 gicd_base) 0xa0a0a0a0
  store32 (gicd_igroupr0 gicd_base) 0
  store32 (gicc_pmr gicc_base) 0xf0
  or32 devices (gicd_ctlr gicd_base) 0x3
  or32 devices (gicc_ctlr gicc_base) 0x3

unfoldable pub platform_configure_swi : Devices → M (Unit {0})
platform_configure_swi devices = do
  id0 ← load32 devices (gicd_pidr0 gicd_base)
  id1 ← load32 devices (gicd_pidr1 gicd_base)
  id2 ← load32 devices (gicd_pidr2 gicd_base)
  id3 ← load32 devices (gicd_pidr3 gicd_base)
  if not (id0 == 0x90) || not (id1 == 0xb4) || not (id2 == 0x2b) || not (id3 == 0x0)
      then arch_abort
      else (do
        cpuid0 ← load32 devices (gicc_iidr gicc_base)
        if not (cpuid0 == 0x202043b) then arch_abort else enable_swi devices)

unfoldable pub uart_putc : Devices → ℕ → ℕ → M (Unit {0})
uart_putc devices fuel c = exynos_putc devices tty_uart_base fuel c

-- The calls of `putch_fn` for a text.
unfoldable pub send_message : Devices → ℕ → List ℕ → M (Unit {0})
unfolding uart_putc
send_message devices fuel [] = pure tt
send_message devices fuel (c ∷ text) = do uart_putc devices fuel c; send_message devices fuel text

-- What `fprintf(DEBUG, "Running on %x\r\n", midr)` prints, where `digits` is what `%x` gives for the
-- identification register of the processor.
abbrev pub running_on : List ℕ → List ℕ
running_on digits =
    (82 ∷ 117 ∷ 110 ∷ 110 ∷ 105 ∷ 110 ∷ 103 ∷ 32 ∷ 111 ∷ 110 ∷ 32 ∷ [])
    ++ (digits ++ (13 ∷ 10 ∷ []))

-- `fuel` is for the waits of the message.
unfoldable pub platform_init : Devices → ℕ → List ℕ → M (Unit {0})
unfolding send_message
platform_init devices fuel digits = do
  modify (λ s. record s { streams = printf_register_output uart_file s.streams })
  modify (λ s. record s { streams = printf_register_debug uart_file s.streams })
  modify (λ s. record s { streams = printf_register_error uart_file s.streams })
  send_message devices fuel (running_on digits)
  store32 0x101d000 0
  store32 (gpio_base + 0x260) 0x11111111
  store32 (gpio_base + 0x268) 0xffff
  platform_configure_swi devices

abbrev pub platform_get_null_devptr : ℕ
platform_get_null_devptr = gpio_base + 0x264

unfoldable pub platform_get_null_devval : M ℕ
platform_get_null_devval s =
    let now = 1 - s.toggle in returns (if now == 0 then 0x00 else 0xff) (record s { toggle = now })

unfoldable pub platform_trigger_swi : Devices → M (Unit {0})
platform_trigger_swi devices = store32 (gicd_sgir gicd_base) (sgi_word 0x0 1 0 0)

unfoldable pub platform_clear_swi : Devices → M (Unit {0})
platform_clear_swi devices = do
  intid ← load32 devices (gicc_iar gicc_base)
  store32 (gicd_cpendsgir0 gicd_base) 0xff
  store32 (gicc_eoir gicc_base) intid
