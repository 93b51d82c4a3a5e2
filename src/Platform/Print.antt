-- ===== src/Platform/Print.antt =====
-- The console of the boards of platform/arm: what `platform_init` registers, and what `fprintf` prints
-- through it.
use simbench.Base.{
  ℕ, zero, suc, ◌+◌, ◌∷◌, [], bit_and, ◌<◌, ◌==◌, Bool, not, ◌||◌, ◌≡◌, refl, List, some, length,
}
use mathlib.Core.Path.{subst}
use simbench.Printf.Format.{VarArgs}
use simbench.Printf.Literal.{IsLiteral, fprintf-literal}
use simbench.Printf.Stream.{
  fprintf, output, printf_register_output, printf_register_debug, printf_register_error,
}
use simbench.Platform.Bus.{Bus, Devices, returns, load32, store32}
use simbench.Platform.Within.{
  EndsIn, IsKeeping, IsKeeping-bind, IsKeeping-if, aborts-IsKeeping, quiet-IsKeeping,
}
use simbench.Platform.Gic.{gicd_pidr0, gicd_pidr1, gicd_pidr2, gicd_pidr3, gicc_iidr}
use simbench.Platform.Uart.{uart_file, pl011_init, exynos_putc, tx_fifo_full_mask, tx_error_mask}
use simbench.Platform.Arm.{
  ArmBoard, arndale, realview, sa1100, versatile, vexpress_a9, vexpress_a15, platform_init,
}
use simbench.Platform.Arndale
use simbench.Platform.Realview
use simbench.Platform.Sa1100
use simbench.Platform.Versatile
use simbench.Platform.VexpressA9
use simbench.Platform.VexpressA15
use simbench.Platform.Put.{IsPut, IsPatient, send_text, send_text-IsPut}

-- `OUTPUT` prints through the UART.
abbrev IsWired : Bus → Type 0
IsWired s = s.streams.output_file ≡ some uart_file

enable-IsKeeping : (devices : Devices) → IsKeeping IsWired (Arndale.enable_swi devices)
unfolding Arndale.enable_swi
enable-IsKeeping devices = record { ends = λ s there. there }

load32-IsKeeping : (devices : Devices) (a : ℕ) → IsKeeping IsWired (load32 devices a)
load32-IsKeeping devices a = record { ends = λ s there. there }

configure-IsKeeping :
    (devices : Devices) → IsKeeping IsWired (Arndale.platform_configure_swi devices)
unfolding Arndale.platform_configure_swi
configure-IsKeeping devices =
    let load = load32-IsKeeping devices in
    IsKeeping-bind (load (gicd_pidr0 Arndale.gicd_base)) (λ id0.
      IsKeeping-bind (load (gicd_pidr1 Arndale.gicd_base)) (λ id1.
        IsKeeping-bind (load (gicd_pidr2 Arndale.gicd_base)) (λ id2.
          IsKeeping-bind (load (gicd_pidr3 Arndale.gicd_base)) (λ id3.
            IsKeeping-if
              (not (id0 == 0x90) || not (id1 == 0xb4) || not (id2 == 0x2b) || not (id3 == 0x0))
              aborts-IsKeeping
              (IsKeeping-bind (load (gicc_iidr Arndale.gicc_base)) (λ cpuid0.
                IsKeeping-if (not (cpuid0 == 0x202043b)) aborts-IsKeeping
                  (enable-IsKeeping devices)))))))

store32-IsKeeping : (a v : ℕ) → IsKeeping IsWired (store32 a v)
store32-IsKeeping a v = record { ends = λ s there. there }

exynos_putc-IsKeeping :
    (devices : Devices) (base fuel c : ℕ) → IsKeeping IsWired (exynos_putc devices base fuel c)
unfolding exynos_putc
exynos_putc-IsKeeping devices base zero c = record { ends = λ s there. tt }
exynos_putc-IsKeeping devices base (suc fuel) c =
    IsKeeping-bind (load32-IsKeeping devices (base + 0x18)) (λ ufstat.
      IsKeeping-if (bit_and ufstat tx_fifo_full_mask == 0) (store32-IsKeeping (base + 0x20) c) (
        IsKeeping-bind (load32-IsKeeping devices (base + 0x14)) (λ uerstat.
          IsKeeping-if (bit_and uerstat tx_error_mask == 0)
            (exynos_putc-IsKeeping devices base fuel c) quiet-IsKeeping)))

send_message-IsKeeping :
    (devices : Devices) (fuel : ℕ) (text : List ℕ)
    → IsKeeping IsWired (Arndale.send_message devices fuel text)
unfolding Arndale.send_message Arndale.uart_putc
send_message-IsKeeping devices fuel [] = quiet-IsKeeping
send_message-IsKeeping devices fuel (c ∷ text) =
    IsKeeping-bind (exynos_putc-IsKeeping devices Arndale.tty_uart_base fuel c)
      (λ done. send_message-IsKeeping devices fuel text)

platform_init-IsWired :
    (b : ArmBoard) (devices : Devices) (fuel : ℕ) (digits : List ℕ) (s : Bus)
    → EndsIn IsWired (platform_init b devices fuel digits s)
unfolding Arndale.platform_init Realview.platform_init Sa1100.platform_init Versatile.platform_init
    VexpressA9.platform_init VexpressA15.platform_init pl011_init printf_register_output
    printf_register_debug printf_register_error
platform_init-IsWired arndale devices fuel digits s =
    (IsKeeping-bind (send_message-IsKeeping devices fuel (Arndale.running_on digits)) (λ said.
        IsKeeping-bind (store32-IsKeeping 0x101d000 0) (λ watchdog.
          IsKeeping-bind (store32-IsKeeping (Arndale.gpio_base + 0x260) 0x11111111) (λ mode.
            IsKeeping-bind (store32-IsKeeping (Arndale.gpio_base + 0x268) 0xffff)
              (λ pull. configure-IsKeeping devices))))).ends
      _ refl
platform_init-IsWired realview devices fuel digits s = refl
platform_init-IsWired sa1100 devices fuel digits s = refl
platform_init-IsWired versatile devices fuel digits s = refl
platform_init-IsWired vexpress_a9 devices fuel digits s = refl
platform_init-IsWired vexpress_a15 devices fuel digits s = refl

-- What `fprintf` gives, and what the UART gets of it.
pub record IsHeard {V : Type 0} (b : ArmBoard) (devices : Devices) (fuel : ℕ) (t : Bus) (arm : Bool)
    (ops : VarArgs V) (stack fmt : List ℕ) (args : V) : Type 0 where
  pub printed :
      fprintf arm ops t.streams output stack fmt args
      ≡ some (record { rc = length fmt; device = some uart_file; text = fmt })
  pub put : IsPut b fmt t (send_text b devices fuel fmt t)

-- Where `platform_init` of a board of platform/arm returned, and on ArndaleBoard the UART always has
-- room again within the fuel, `fprintf` of a format without a percent sign that is shorter than its
-- buffer prints through `OUTPUT` on the UART: `uart_putc` returns for each character, and the data
-- register is given exactly the format's characters in order.
pub fprintf-IsHeard :
    {V : Type 0} (b : ArmBoard) (devices : Devices) (fuel : ℕ) (digits : List ℕ) (s t : Bus)
    (arm : Bool) (ops : VarArgs V) (stack fmt : List ℕ) (args : V)
    → platform_init b devices fuel digits s ≡ returns tt t
    → IsPatient b devices fuel
    → length stack ≡ 0x1000
    → IsLiteral fmt
    → length fmt < 0x1000
    → IsHeard b devices fuel t arm ops stack fmt args
fprintf-IsHeard b devices fuel digits s t arm ops stack fmt args done patient full lit short =
    record {
      printed =
          fprintf-literal arm ops t.streams output uart_file stack fmt args
            (subst (EndsIn IsWired) done (platform_init-IsWired b devices fuel digits s)) full lit
            short;
      put = send_text-IsPut b devices fuel fmt t patient;
    }
