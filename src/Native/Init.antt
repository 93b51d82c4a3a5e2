-- ===== src/Native/Init.antt =====
-- platform/x86_64/native/platform.c and platform/x86_64/qemu/platform.c.
use simbench.Base.{ℕ, Bool, if◌then◌else◌}
use simbench.Trap.Apic.{lapic_issue_interrupt, lapic_acknowledge_irq}
use simbench.Printf.Stream.{printf_register_output, printf_register_debug, printf_register_error}
use simbench.Console.Screen.{console_init}
use simbench.Native.Ports.{M, PcDevices, on_cpu, write_port, ◌>>◌, modify}
use simbench.Native.Serial.{serial_init}
use simbench.Native.Timer.{timer_init}

-- The functions that print a character, by number.
abbrev pub console_file : ℕ
console_file = 1

abbrev pub serial_file : ℕ
serial_file = 2

abbrev pub qemu_file : ℕ
qemu_file = 3

abbrev pub register_output : ℕ → M (Unit {0})
register_output f = modify (λ s. record s { streams = printf_register_output f s.streams })

abbrev pub register_messages : ℕ → M (Unit {0})
register_messages f = do
  modify (λ s. record s { streams = printf_register_debug f s.streams })
  modify (λ s. record s { streams = printf_register_error f s.streams })

unfoldable pub native_platform_init : PcDevices → ℕ → M (Unit {0})
native_platform_init devices fuel = do
  modify (λ s. record s { console = console_init s.console })
  serial_init
  (λ s. register_output (if s.cpu.use_framebuffer then console_file else serial_file) s)
  register_messages console_file
  timer_init devices fuel

unfoldable pub qemu_output_putc : ℕ → M (Unit {0})
qemu_output_putc ch = write_port 0xe9 ch

-- `simbench_debug` says whether SIMBENCH_DEBUG is defined.
unfoldable pub qemu_platform_init : Bool → M (Unit {0})
qemu_platform_init simbench_debug = do
  register_output qemu_file
  modify (λ s. record s { console = console_init s.console })
  register_messages (if simbench_debug then qemu_file else console_file)

-- Both platforms.
abbrev pub platform_get_null_devptr : ℕ
platform_get_null_devptr = 0xfee00380

abbrev pub platform_get_null_devval : ℕ
platform_get_null_devval = 0x1234

unfoldable pub platform_trigger_swi : M (Unit {0})
platform_trigger_swi = on_cpu (lapic_issue_interrupt 0x30)

unfoldable pub platform_clear_swi : M (Unit {0})
platform_clear_swi = on_cpu lapic_acknowledge_irq
