-- ===== src/Platform/Calls.antt =====
-- The registers that the boards of platform/arm access with the MMU on lie in the sections of their
-- device lists.
use simbench.Base.{
  ℕ, zero, suc, ◌+◌, ◌*◌, ◌/◌, ◌^◌, ◌==◌, ltb, leb, false, ◌&&◌, ◌||◌, true, not, Bool, ◌≡◌, refl,
  List, [], ◌∷◌, bit_and,
}
use simbench.Platform.Bus.{M, Devices, load32, store32, ◌>>=◌, ◌>>◌}
use simbench.Platform.Gic.{
  gicd_pidr0, gicd_pidr1, gicd_pidr2, gicd_pidr3, gicc_iar, gicd_cpendsgir0, gicc_eoir,
}
use simbench.Platform.Within.{
  IsWithin, load32-IsWithin, store32-IsWithin, or32-IsWithin, quiet-IsKeeping, aborts-IsKeeping,
  unfinished-IsKeeping, IsKeeping-bind, IsKeeping-then, IsKeeping-if,
}
use simbench.Platform.Arm.{
  ArmBoard, arndale, realview, sa1100, versatile, vexpress_a9, vexpress_a15, device_info,
  platform_trigger_swi, platform_clear_swi, uart_putc, Call, trigger, clear, putc, perform, calls,
}
use simbench.Section.Map.{PhysMemInfo}
use simbench.Platform.Uart.{exynos_putc, tx_fifo_full_mask, tx_error_mask}
use simbench.Platform.Arndale
use simbench.Platform.Realview
use simbench.Platform.Sa1100
use simbench.Platform.Versatile
use simbench.Platform.VexpressA9
use simbench.Platform.VexpressA15

-- A 32-bit address in a section of a device of the list.
abbrev pub is_listed : List PhysMemInfo → ℕ → Bool
is_listed [] a = false
is_listed (dev ∷ next_mem) a =
    (ltb a (2 ^ 32)
      && (leb (dev.phys_mem_start / 2 ^ 20) (a / 2 ^ 20)
          && leb (a / 2 ^ 20 * 2 ^ 20) dev.phys_mem_end))
    || is_listed next_mem a

-- The addresses of the devices.
abbrev pub Lists : (ℕ → Type 0) → ArmBoard → Type 0
Lists In b = (a : ℕ) → is_listed (device_info b) a ≡ true → In a

module _ {In : ℕ → Type 0} (devices : Devices) where
  -- The reads of the identity.
  identity-IsWithin :
      (base : ℕ) {k : ℕ → ℕ → ℕ → ℕ → M (Unit {0})}
      → In (gicd_pidr0 base)
      → In (gicd_pidr1 base)
      → In (gicd_pidr2 base)
      → In (gicd_pidr3 base)
      → ((id0 id1 id2 id3 : ℕ) → IsWithin In (k id0 id1 id2 id3))
      → IsWithin In (do
        id0 ← load32 devices (gicd_pidr0 base)
        id1 ← load32 devices (gicd_pidr1 base)
        id2 ← load32 devices (gicd_pidr2 base)
        id3 ← load32 devices (gicd_pidr3 base)
        k id0 id1 id2 id3)
  identity-IsWithin base {k} i0 i1 i2 i3 rest = IsKeeping-bind (load32-IsWithin devices i0) (λ id0.
      IsKeeping-bind
        {k = λ id1.
          load32 devices (gicd_pidr2 base)
          >>= (λ id2. load32 devices (gicd_pidr3 base) >>= (λ id3. k id0 id1 id2 id3))}
        (load32-IsWithin devices i1)
        (λ id1.
          IsKeeping-bind
            {k = λ id2. load32 devices (gicd_pidr3 base) >>= (λ id3. k id0 id1 id2 id3)}
            (load32-IsWithin devices i2)
            (λ id2.
              IsKeeping-bind {k = k id0 id1 id2} (load32-IsWithin devices i3)
                (λ id3. rest id0 id1 id2 id3))))

  -- The end of an interrupt.
  clear-IsWithin :
      (gicd gicc : ℕ)
      → In (gicc_iar gicc)
      → In (gicd_cpendsgir0 gicd)
      → In (gicc_eoir gicc)
      → IsWithin In (do
        intid ← load32 devices (gicc_iar gicc)
        store32 (gicd_cpendsgir0 gicd) 0xff
        store32 (gicc_eoir gicc) intid)
  clear-IsWithin gicd gicc iar cpend eoir =
      IsKeeping-bind
        {k = λ intid. store32 (gicd_cpendsgir0 gicd) 0xff >> store32 (gicc_eoir gicc) intid}
        (load32-IsWithin devices iar)
        (λ intid. IsKeeping-then (store32-IsWithin 0xff cpend) (store32-IsWithin intid eoir))

  enabled_realview : Lists In realview → IsWithin In (Realview.enable_and_signal devices)
  unfolding Realview.enable_and_signal
  enabled_realview r = IsKeeping-then (store32-IsWithin _ (r _ refl)) (
      IsKeeping-then (store32-IsWithin _ (r _ refl)) (
        IsKeeping-then (store32-IsWithin _ (r _ refl)) (
          IsKeeping-then (store32-IsWithin _ (r _ refl)) (
            IsKeeping-then (store32-IsWithin _ (r _ refl)) (
              IsKeeping-then (or32-IsWithin devices 0x3 (r _ refl)) (
                IsKeeping-then (or32-IsWithin devices 0x3 (r _ refl))
                  (store32-IsWithin _ (r _ refl))))))))

  trigger_realview : Lists In realview → IsWithin In (platform_trigger_swi realview devices)
  unfolding Realview.platform_trigger_swi
  trigger_realview r =
      identity-IsWithin Realview.gicd_base (r _ refl) (r _ refl) (r _ refl) (r _ refl)
        (λ id0 id1 id2 id3.
          IsKeeping-if
            (not (id0 == 0x90) || not (id1 == 0x13) || not (id2 == 0x4) || not (id3 == 0x0))
            aborts-IsKeeping (enabled_realview r))

  enabled_vexpress_a9 : Lists In vexpress_a9 → IsWithin In (VexpressA9.enable_and_signal devices)
  unfolding VexpressA9.enable_and_signal
  enabled_vexpress_a9 r = IsKeeping-then (store32-IsWithin _ (r _ refl)) (
      IsKeeping-then (store32-IsWithin _ (r _ refl)) (
        IsKeeping-then (store32-IsWithin _ (r _ refl)) (
          IsKeeping-then (or32-IsWithin devices 0x3 (r _ refl)) (
            IsKeeping-then (or32-IsWithin devices 0x3 (r _ refl))
              (store32-IsWithin _ (r _ refl))))))

  trigger_vexpress_a9 :
      Lists In vexpress_a9 → IsWithin In (platform_trigger_swi vexpress_a9 devices)
  unfolding VexpressA9.platform_trigger_swi
  trigger_vexpress_a9 r =
      identity-IsWithin VexpressA9.gicd_base (r _ refl) (r _ refl) (r _ refl) (r _ refl)
        (λ id0 id1 id2 id3.
          IsKeeping-if
            (not (id0 == 0x90) || not (id1 == 0x13) || not (id2 == 0x4) || not (id3 == 0x0))
            aborts-IsKeeping (enabled_vexpress_a9 r))

  enabled_vexpress_a15 : Lists In vexpress_a15 → IsWithin In (VexpressA15.enable_and_signal devices)
  unfolding VexpressA15.enable_and_signal
  enabled_vexpress_a15 r = IsKeeping-then (store32-IsWithin _ (r _ refl)) (
      IsKeeping-then (store32-IsWithin _ (r _ refl)) (
        IsKeeping-then (store32-IsWithin _ (r _ refl)) (
          IsKeeping-then (or32-IsWithin devices 0x3 (r _ refl)) (
            IsKeeping-then (or32-IsWithin devices 0x3 (r _ refl))
              (store32-IsWithin _ (r _ refl))))))

  trigger_vexpress_a15 :
      Lists In vexpress_a15 → IsWithin In (platform_trigger_swi vexpress_a15 devices)
  unfolding VexpressA15.platform_trigger_swi
  trigger_vexpress_a15 r =
      identity-IsWithin VexpressA15.gicd_base (r _ refl) (r _ refl) (r _ refl) (r _ refl)
        (λ id0 id1 id2 id3. enabled_vexpress_a15 r)

  triggers : (b : ArmBoard) → Lists In b → IsWithin In (platform_trigger_swi b devices)
  unfolding Arndale.platform_trigger_swi Sa1100.platform_trigger_swi Versatile.platform_trigger_swi
  triggers arndale r = store32-IsWithin _ (r _ refl)
  triggers realview r = trigger_realview r
  triggers sa1100 r = IsKeeping-then (store32-IsWithin _ (r _ refl)) (
      IsKeeping-then (store32-IsWithin _ (r _ refl))
        (IsKeeping-then (store32-IsWithin _ (r _ refl)) (store32-IsWithin _ (r _ refl))))
  triggers versatile r =
      IsKeeping-then (store32-IsWithin _ (r _ refl)) (store32-IsWithin _ (r _ refl))
  triggers vexpress_a9 r = trigger_vexpress_a9 r
  triggers vexpress_a15 r = trigger_vexpress_a15 r

  clears : (b : ArmBoard) → Lists In b → IsWithin In (platform_clear_swi b devices)
  unfolding Arndale.platform_clear_swi Realview.platform_clear_swi Sa1100.platform_clear_swi
      Versatile.platform_clear_swi VexpressA9.platform_clear_swi VexpressA15.platform_clear_swi
  clears arndale r =
      clear-IsWithin Arndale.gicd_base Arndale.gicc_base (r _ refl) (r _ refl) (r _ refl)
  clears realview r =
      clear-IsWithin Realview.gicd_base Realview.gicc_base (r _ refl) (r _ refl) (r _ refl)
  clears sa1100 r = IsKeeping-then (store32-IsWithin _ (r _ refl)) (store32-IsWithin _ (r _ refl))
  clears versatile r = store32-IsWithin _ (r _ refl)
  clears vexpress_a9 r =
      clear-IsWithin VexpressA9.gicd_base VexpressA9.gicc_base (r _ refl) (r _ refl) (r _ refl)
  clears vexpress_a15 r =
      clear-IsWithin VexpressA15.gicd_base VexpressA15.gicc_base (r _ refl) (r _ refl) (r _ refl)

  waits :
      (fuel c : ℕ)
      → Lists In arndale
      → IsWithin In (exynos_putc devices Arndale.tty_uart_base fuel c)
  unfolding exynos_putc
  waits zero c r = unfinished-IsKeeping
  waits (suc fuel) c r = IsKeeping-bind (load32-IsWithin devices (r _ refl)) (λ ufstat.
      IsKeeping-if (bit_and ufstat tx_fifo_full_mask == 0)
        (store32-IsWithin {a = Arndale.tty_uart_base + 0x20} c (r _ refl))
        (IsKeeping-bind (load32-IsWithin devices {a = Arndale.tty_uart_base + 0x14} (r _ refl))
          (λ uerstat.
            IsKeeping-if (bit_and uerstat tx_error_mask == 0) (waits fuel c r) quiet-IsKeeping)))

  putcs : (b : ArmBoard) (fuel c : ℕ) → Lists In b → IsWithin In (uart_putc b devices fuel c)
  unfolding Arndale.uart_putc Realview.uart_putc Sa1100.uart_putc Versatile.uart_putc
      VexpressA9.uart_putc VexpressA15.uart_putc
  putcs arndale fuel c r = waits fuel c r
  putcs realview fuel c r = store32-IsWithin c (r _ refl)
  putcs sa1100 fuel c r = store32-IsWithin c (r _ refl)
  putcs versatile fuel c r = store32-IsWithin c (r _ refl)
  putcs vexpress_a9 fuel c r = store32-IsWithin c (r _ refl)
  putcs vexpress_a15 fuel c r = store32-IsWithin c (r _ refl)

  call-IsWithin :
      (b : ArmBoard) (fuel : ℕ) (c : Call) → Lists In b → IsWithin In (perform b devices fuel c)
  call-IsWithin b fuel trigger r = triggers b r
  call-IsWithin b fuel clear r = clears b r
  call-IsWithin b fuel (putc c) r = putcs b fuel c r

  -- Any sequence of calls.
  pub calls-IsWithin :
      (b : ArmBoard) (fuel : ℕ) (cs : List Call)
      → Lists In b
      → IsWithin In (calls b devices fuel cs)
  calls-IsWithin b fuel [] r = quiet-IsKeeping
  calls-IsWithin b fuel (c ∷ cs) r =
      IsKeeping-then (call-IsWithin b fuel c r) (calls-IsWithin b fuel cs r)
