-- ===== src/Platform/Boards.antt =====
-- The boards of platform/arm and platform/armv8 that have an ARM interrupt controller.
use simbench.Base.{ℕ, List}
use simbench.Platform.Bus.{M, Devices}
use simbench.Platform.Arndale
use simbench.Platform.Realview
use simbench.Platform.VexpressA9
use simbench.Platform.VexpressA15
use simbench.Platform.Virt

pub data GicBoard : Type 0 where
  arndale realview vexpress_a9 vexpress_a15 virt : GicBoard

abbrev pub gicd_base : GicBoard → ℕ
gicd_base arndale = Arndale.gicd_base
gicd_base realview = Realview.gicd_base
gicd_base vexpress_a9 = VexpressA9.gicd_base
gicd_base vexpress_a15 = VexpressA15.gicd_base
gicd_base virt = Virt.gicd_base

abbrev pub gicc_base : GicBoard → ℕ
gicc_base arndale = Arndale.gicc_base
gicc_base realview = Realview.gicc_base
gicc_base vexpress_a9 = VexpressA9.gicc_base
gicc_base vexpress_a15 = VexpressA15.gicc_base
gicc_base virt = Virt.gicc_base

-- The function that the board's directory links. The fuel and the digits are for the message of
-- ArndaleBoard.
abbrev pub platform_init : GicBoard → Devices → ℕ → List ℕ → M (Unit {0})
platform_init arndale devices fuel digits = Arndale.platform_init devices fuel digits
platform_init realview devices fuel digits = Realview.platform_init
platform_init vexpress_a9 devices fuel digits = VexpressA9.platform_init
platform_init vexpress_a15 devices fuel digits = VexpressA15.platform_init devices
platform_init virt devices fuel digits = Virt.platform_init

abbrev pub platform_trigger_swi : GicBoard → Devices → M (Unit {0})
platform_trigger_swi arndale devices = Arndale.platform_trigger_swi devices
platform_trigger_swi realview devices = Realview.platform_trigger_swi devices
platform_trigger_swi vexpress_a9 devices = VexpressA9.platform_trigger_swi devices
platform_trigger_swi vexpress_a15 devices = VexpressA15.platform_trigger_swi devices
platform_trigger_swi virt devices = Virt.platform_trigger_swi devices

abbrev pub platform_clear_swi : GicBoard → Devices → M (Unit {0})
platform_clear_swi arndale devices = Arndale.platform_clear_swi devices
platform_clear_swi realview devices = Realview.platform_clear_swi devices
platform_clear_swi vexpress_a9 devices = VexpressA9.platform_clear_swi devices
platform_clear_swi vexpress_a15 devices = VexpressA15.platform_clear_swi devices
platform_clear_swi virt devices = Virt.platform_clear_swi devices
