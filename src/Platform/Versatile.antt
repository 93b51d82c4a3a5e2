-- ===== src/Platform/Versatile.antt =====
-- platform/arm/versatile: platform.c, uart.c and mem.c, with constants.h.
use simbench.Base.{ℕ, ◌+◌, List, [], ◌∷◌}
use simbench.Platform.Bus.{M, store32, ◌>>◌, modify}
use simbench.Platform.Uart.{uart_file}
use simbench.Section.Map.{PhysMemInfo}
use simbench.Printf.Stream.{printf_register_output, printf_register_debug}

abbrev pub pl190_base : ℕ
pl190_base = 0x10140000

abbrev pub uart_base : ℕ
uart_base = 0x101f1000

abbrev pub device_info : List PhysMemInfo
device_info =
    record { phys_mem_start = 0x101f1000; phys_mem_end = 0x101f1fff }
    ∷ (record { phys_mem_start = 0x10000000; phys_mem_end = 0x10000fff } ∷ [])

unfoldable pub platform_init : M (Unit {0})
platform_init = do
  modify (λ s. record s { streams = printf_register_output uart_file s.streams })
  modify (λ s. record s { streams = printf_register_debug uart_file s.streams })

abbrev pub platform_get_null_devptr : ℕ
platform_get_null_devptr = 0x10000008

abbrev pub platform_get_null_devval : ℕ
platform_get_null_devval = 0xff

unfoldable pub platform_trigger_swi : M (Unit {0})
platform_trigger_swi = do store32 (pl190_base + 0x10) 0x1; store32 (pl190_base + 0x18) 0x1

unfoldable pub platform_clear_swi : M (Unit {0})
platform_clear_swi = store32 (pl190_base + 0x1c) 0x1

unfoldable pub uart_putc : ℕ → M (Unit {0})
uart_putc c = store32 uart_base c
