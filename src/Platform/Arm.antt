-- ===== src/Platform/Arm.antt =====
-- The boards of platform/arm, and what a benchmark calls of them.
use simbench.Base.{ℕ, List, [], ◌∷◌}
use simbench.Platform.Bus.{M, Devices, pure, ◌>>◌}
use simbench.Section.Map.{PhysMemInfo}
use simbench.Platform.Arndale
use simbench.Platform.Realview
use simbench.Platform.Sa1100
use simbench.Platform.Versatile
use simbench.Platform.VexpressA9
use simbench.Platform.VexpressA15

pub data ArmBoard : Type 0 where
  arndale realview sa1100 versatile vexpress_a9 vexpress_a15 : ArmBoard

-- The list that `mem_get_device_info` begins.
abbrev pub device_info : ArmBoard → List PhysMemInfo
device_info arndale = Arndale.device_info
device_info realview = Realview.device_info
device_info sa1100 = Sa1100.device_info
device_info versatile = Versatile.device_info
device_info vexpress_a9 = VexpressA9.device_info
device_info vexpress_a15 = VexpressA15.device_info

-- The fuel and the digits are for the message of ArndaleBoard.
abbrev pub platform_init : ArmBoard → Devices → ℕ → List ℕ → M (Unit {0})
platform_init arndale devices fuel digits = Arndale.platform_init devices fuel digits
platform_init realview devices fuel digits = Realview.platform_init
platform_init sa1100 devices fuel digits = Sa1100.platform_init
platform_init versatile devices fuel digits = Versatile.platform_init
platform_init vexpress_a9 devices fuel digits = VexpressA9.platform_init
platform_init vexpress_a15 devices fuel digits = VexpressA15.platform_init devices

abbrev pub platform_trigger_swi : ArmBoard → Devices → M (Unit {0})
platform_trigger_swi arndale devices = Arndale.platform_trigger_swi devices
platform_trigger_swi realview devices = Realview.platform_trigger_swi devices
platform_trigger_swi sa1100 devices = Sa1100.platform_trigger_swi
platform_trigger_swi versatile devices = Versatile.platform_trigger_swi
platform_trigger_swi vexpress_a9 devices = VexpressA9.platform_trigger_swi devices
platform_trigger_swi vexpress_a15 devices = VexpressA15.platform_trigger_swi devices

abbrev pub platform_clear_swi : ArmBoard → Devices → M (Unit {0})
platform_clear_swi arndale devices = Arndale.platform_clear_swi devices
platform_clear_swi realview devices = Realview.platform_clear_swi devices
platform_clear_swi sa1100 devices = Sa1100.platform_clear_swi
platform_clear_swi versatile devices = Versatile.platform_clear_swi
platform_clear_swi vexpress_a9 devices = VexpressA9.platform_clear_swi devices
platform_clear_swi vexpress_a15 devices = VexpressA15.platform_clear_swi devices

-- The fuel is for the loop of ArndaleBoard.
abbrev pub uart_putc : ArmBoard → Devices → ℕ → ℕ → M (Unit {0})
uart_putc arndale devices fuel c = Arndale.uart_putc devices fuel c
uart_putc realview devices fuel c = Realview.uart_putc c
uart_putc sa1100 devices fuel c = Sa1100.uart_putc c
uart_putc versatile devices fuel c = Versatile.uart_putc c
uart_putc vexpress_a9 devices fuel c = VexpressA9.uart_putc c
uart_putc vexpress_a15 devices fuel c = VexpressA15.uart_putc c

-- What the interrupt benchmark and `fprintf` call once the MMU is on.
pub data Call : Type 0 where
  trigger clear : Call
  putc : ℕ → Call

abbrev pub perform : ArmBoard → Devices → ℕ → Call → M (Unit {0})
perform b devices fuel trigger = platform_trigger_swi b devices
perform b devices fuel clear = platform_clear_swi b devices
perform b devices fuel (putc c) = uart_putc b devices fuel c

abbrev pub calls : ArmBoard → Devices → ℕ → List Call → M (Unit {0})
calls b devices fuel [] = pure tt
calls b devices fuel (c ∷ rest) = do perform b devices fuel c; calls b devices fuel rest
