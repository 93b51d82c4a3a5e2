-- ===== src/Platform/Uart.antt =====
-- The UARTs of platform/arm and platform/armv8. All but those of vexpress-a15 and ArndaleBoard are
-- one store to a data register.
use simbench.Base.{ℕ, zero, suc, ◌+◌, ◌*◌, ◌^◌, ◌==◌, if◌then◌else◌, bit_and}
use simbench.Platform.Bus.{M, Devices, load32, store32, or32, ◌>>=◌, ◌>>◌, pure, unfinished}

-- The number of `uart_putc` among the functions that print a character.
abbrev pub uart_file : ℕ
uart_file = 1

-- `uart_init` of vexpress-a15, from its base on.
unfoldable pub pl011_init : Devices → ℕ → M (Unit {0})
pl011_init devices base = do
  store32 (base + 0x24) 0x4
  store32 (base + 0x2c) (0x3 * 2 ^ 5)
  or32 devices (base + 0x30) 0x180
  or32 devices (base + 0x30) 0x1

abbrev pub tx_error_mask : ℕ
tx_error_mask = 0x8

abbrev pub tx_fifo_full_mask : ℕ
tx_fifo_full_mask = 2 ^ 24

-- `uart_putc` of ArndaleBoard, with fuel for its loop: it waits for room in the FIFO, and gives the
-- character up on an error.
unfoldable pub exynos_putc : Devices → ℕ → ℕ → ℕ → M (Unit {0})
exynos_putc devices base zero c = λ s. unfinished
exynos_putc devices base (suc fuel) c =
    let rest = exynos_putc devices base fuel c in
    do
      ufstat ← load32 devices (base + 0x18)
      if bit_and ufstat tx_fifo_full_mask == 0 then store32 (base + 0x20) c else (do
        uerstat ← load32 devices (base + 0x14)
        if bit_and uerstat tx_error_mask == 0 then rest else pure tt)
