-- ===== src/Native/Tests.antt =====
-- The native platform of x86-64 at concrete devices.
use simbench.Base.{refl, arith, [], none}
use simbench.Native.Ports.{Pc, PcDevices}
use simbench.Native.Up.{now, IsUp, native_platform_init-IsUp}
use simbench.Trap.Tests.{cpu}

-- The timer has expired at once, and its count is 0xfffe0000.
abbrev devices : PcDevices
devices = record { port = λ h a. 0; tccr = λ c h. 0xfffe0000 }

abbrev pc : Pc
pc = record {
  cpu = cpu;
  ports = [];
  streams = record { output_file = none; debug_file = none; error_file = none };
  console = record { vga = λ i. 7; cur_x = 3; cur_y = 4; registers = [] };
  lapic_frequency = 0;
}

native_platform_init-IsUp_example : IsUp devices 1 pc
native_platform_init-IsUp_example =
    native_platform_init-IsUp devices 1 pc (λ h. (0, now refl, omega arith))
