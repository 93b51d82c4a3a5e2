-- ===== src/Native/Timer.antt =====
-- arch/x86_64/pit.c and platform/x86_64/native/timer.c.
use simbench.Base.{ℕ, zero, suc, ◌-◌, ◌*◌, ◌/◌, ◌%◌, ◌^◌, ◌==◌, if◌then◌else◌, bit_and, bit_or}
use simbench.Trap.Apic.{lapic_timer_start, lapic_timer_stop, lapic_timer_reset}
use simbench.Native.Ports.{
  M, PcDevices, read_port, write_port, on_cpu, returns, unfinished, ◌>>=◌, ◌>>◌, modify, pure,
}

unfoldable pub pit_init_oneshot : PcDevices → ℕ → M (Unit {0})
pit_init_oneshot devices x = do
  byte ← read_port devices 0x61
  write_port 0x61 (bit_or (bit_and byte 0xfd) 1)
  write_port 0x43 0xb2
  write_port 0x42 x
  write_port 0x42 (x / 2 ^ 8)

unfoldable pub pit_start : PcDevices → M (Unit {0})
pit_start devices = do
  byte ← read_port devices 0x61
  write_port 0x61 (bit_and byte 0xfe)
  write_port 0x61 (bit_or (bit_and byte 0xfe) 1)

-- `while (!pit_expired());` with fuel for each read of the port.
unfoldable pub wait_pit : PcDevices → ℕ → M (Unit {0})
wait_pit devices zero = λ s. unfinished
wait_pit devices (suc fuel) =
    let rest = wait_pit devices fuel in
    do expired ← read_port devices 0x61; if bit_and expired 0x20 == 0 then pure tt else rest

unfoldable pub lapic_timer_read : PcDevices → M ℕ
lapic_timer_read devices s = returns (devices.tccr s.cpu s.ports % 2 ^ 32) s

-- PIT_FREQUENCY / CALIBRATION_FREQUENCY, cut to 16 bits by `pit_init_oneshot`.
abbrev pub calibration_period : ℕ
calibration_period = 1193180 / 100

-- The subtraction does not wrap: the count has 32 bits.
abbrev pub frequency_of : ℕ → ℕ
frequency_of count = (0xffffffff - count) * 2 ^ 4 % 2 ^ 32 / 100

unfoldable pub timer_init : PcDevices → ℕ → M (Unit {0})
timer_init devices fuel = do
  on_cpu lapic_timer_reset
  pit_init_oneshot devices (calibration_period % 2 ^ 16)
  pit_start devices
  on_cpu lapic_timer_start
  wait_pit devices fuel
  on_cpu lapic_timer_stop
  count ← lapic_timer_read devices
  modify (λ s. record s { lapic_frequency = frequency_of count })

unfoldable pub timer_start : M (Unit {0})
timer_start = on_cpu lapic_timer_start

unfoldable pub timer_reset : M (Unit {0})
timer_reset = on_cpu lapic_timer_reset

unfoldable pub timer_read : PcDevices → M ℕ
timer_read devices = lapic_timer_read devices
