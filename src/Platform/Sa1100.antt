-- ===== src/Platform/Sa1100.antt =====
-- platform/arm/sa1100: platform.c, uart.c and mem.c, with constants.h.
use simbench.Base.{ℕ, ◌+◌, ◌^◌, List, [], ◌∷◌}
use simbench.Platform.Bus.{M, store32, ◌>>◌, modify}
use simbench.Platform.Uart.{uart_file}
use simbench.Section.Map.{PhysMemInfo}
use simbench.Printf.Stream.{printf_register_output, printf_register_debug}

abbrev pub ic_start : ℕ
ic_start = 0x90050000

abbrev pub ostimer_start : ℕ
ostimer_start = 0x90000000

abbrev pub uart_base : ℕ
uart_base = 0x80050000

abbrev pub device_info : List PhysMemInfo
device_info =
    record { phys_mem_start = 0x80050000; phys_mem_end = 0x80050fff }
    ∷ (record { phys_mem_start = 0x90010000; phys_mem_end = 0x90010010 }
        ∷ (record { phys_mem_start = 0x90000000; phys_mem_end = 0x9000001c }
            ∷ (record { phys_mem_start = 0x90050000; phys_mem_end = 0x9005000c } ∷ [])))

unfoldable pub platform_init : M (Unit {0})
platform_init = do
  modify (λ s. record s { streams = printf_register_output uart_file s.streams })
  modify (λ s. record s { streams = printf_register_debug uart_file s.streams })

abbrev pub platform_get_null_devptr : ℕ
platform_get_null_devptr = 0x90010004

abbrev pub platform_get_null_devval : ℕ
platform_get_null_devval = 0

unfoldable pub platform_trigger_swi : M (Unit {0})
platform_trigger_swi = do
  store32 (ic_start + 0x4) (2 ^ 26)
  store32 (ostimer_start + 0x1c) 0x1
  store32 (ostimer_start + 0x0) 0x1
  store32 (ostimer_start + 0x10) 0x0

unfoldable pub platform_clear_swi : M (Unit {0})
platform_clear_swi = do store32 (ostimer_start + 0x14) 0x1; store32 (ostimer_start + 0x1c) 0x0

unfoldable pub uart_putc : ℕ → M (Unit {0})
uart_putc c = store32 (uart_base + 0x14) c
