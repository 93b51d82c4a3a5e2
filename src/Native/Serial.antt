-- ===== src/Native/Serial.antt =====
-- platform/x86_64/native/serial.c.
use simbench.Base.{ℕ, zero, suc, ◌+◌, ◌==◌, if◌then◌else◌, bit_and}
use simbench.Native.Ports.{M, PcDevices, read_port, write_port, unfinished, ◌>>=◌, ◌>>◌}

abbrev pub com1 : ℕ
com1 = 0x3f8

unfoldable pub serial_init : M (Unit {0})
serial_init = do
  write_port (com1 + 1) 0x00
  write_port (com1 + 3) 0x80
  write_port (com1 + 0) 0x03
  write_port (com1 + 1) 0x00
  write_port (com1 + 3) 0x03
  write_port (com1 + 2) 0xc7

-- The loop waits for bit 5 of the line status, with fuel for each read of it.
unfoldable pub serial_putc : PcDevices → ℕ → ℕ → M (Unit {0})
serial_putc devices zero ch = λ s. unfinished
serial_putc devices (suc fuel) ch =
    let rest = serial_putc devices fuel ch in
    do
      status ← read_port devices (com1 + 5)
      if bit_and status 0x20 == 0 then rest else write_port com1 ch
