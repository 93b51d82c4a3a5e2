-- ===== src/Platform/Put.antt =====
-- `uart_putc` of the boards of platform/arm, for a character and for a text.
use simbench.Base.{
  ℕ, zero, suc, ◌+◌, ◌%◌, ◌^◌, ◌<◌, ◌==◌, if◌then◌else◌, ◌≡◌, ◌≢◌, refl, sym, ap, ◌∙◌, arith, List,
  [], ◌∷◌, ◌++◌, bit_and, ne→==,
}
use mathlib.Core.List.{append-nil, append_assoc}
use simbench.Platform.Bus.{Access, load, store, Bus, M, Devices, Outcome, returns, ◌>>◌, pure}
use simbench.Platform.Uart.{exynos_putc, tx_fifo_full_mask, tx_error_mask}
use simbench.Platform.Arm.{
  ArmBoard, arndale, realview, sa1100, versatile, vexpress_a9, vexpress_a15, uart_putc,
}
use simbench.Platform.Arndale
use simbench.Platform.Realview
use simbench.Platform.Sa1100
use simbench.Platform.Versatile
use simbench.Platform.VexpressA9
use simbench.Platform.VexpressA15

-- The register that takes the characters.
abbrev pub data_register : ArmBoard → ℕ
data_register arndale = Arndale.tty_uart_base + 0x20
data_register realview = Realview.uart_base
data_register sa1100 = Sa1100.uart_base + 0x14
data_register versatile = Versatile.uart_base
data_register vexpress_a9 = VexpressA9.uart_base
data_register vexpress_a15 = VexpressA15.uart_base

-- What a register was given, the first value first.
abbrev pub stored : ℕ → List Access → List ℕ
stored a [] = []
stored a (load b v ∷ rest) = stored a rest
stored a (store b v ∷ rest) = if b == a then stored a rest ++ (v ∷ []) else stored a rest

-- The accesses after one more load.
abbrev pub loaded : Devices → ℕ → List Access → List Access
loaded devices a h = load a (devices h a % 2 ^ 32) ∷ h

-- After `h`, the UART of ArndaleBoard has room after `n` polls that find it full and without an error.
pub data HasRoom (devices : Devices) (base : ℕ) : List Access → ℕ → Type 0 where
  ready :
      {h : List Access}
      → bit_and (devices h (base + 0x18) % 2 ^ 32) tx_fifo_full_mask ≡ 0
      → HasRoom devices base h 0
  busy :
      {h : List Access} {n : ℕ}
      → bit_and (devices h (base + 0x18) % 2 ^ 32) tx_fifo_full_mask ≢ 0
      → bit_and (devices (loaded devices (base + 0x18) h) (base + 0x14) % 2 ^ 32) tx_error_mask ≡ 0
      → HasRoom devices base (loaded devices (base + 0x14) (loaded devices (base + 0x18) h)) n
      → HasRoom devices base h (suc n)

-- The run gives the data register those characters, and leaves the streams.
pub record IsPut (b : ArmBoard) (text : List ℕ) (s : Bus) (o : Outcome Bus (Unit {0}))
    : Type 0 where
  pub after : Bus
  pub done : o ≡ returns tt after
  pub chars : stored (data_register b) after.accesses ≡ stored (data_register b) s.accesses ++ text

exynos_putc-IsPut :
    (devices : Devices) (fuel n c : ℕ) (s : Bus)
    → HasRoom devices Arndale.tty_uart_base s.accesses n
    → n < fuel
    → IsPut arndale (c ∷ []) s (exynos_putc devices Arndale.tty_uart_base fuel c s)
unfolding exynos_putc
exynos_putc-IsPut devices zero n c s room enough = absurd (omega arith)
exynos_putc-IsPut devices (suc fuel) zero c s (ready empty) enough = record {
  after = record s {
    accesses =
        store (data_register arndale) c
        ∷ (load (Arndale.tty_uart_base + 0x18)
              (devices s.accesses (Arndale.tty_uart_base + 0x18) % 2 ^ 32)
            ∷ s.accesses);
  };
  done = rw empty refl;
  chars = refl;
}
exynos_putc-IsPut devices (suc fuel) (suc n) c s (busy full fine room) enough =
    let rest =
      exynos_putc-IsPut devices fuel n c
        (record s {
          accesses =
              loaded devices (Arndale.tty_uart_base + 0x14)
                (loaded devices (Arndale.tty_uart_base + 0x18) s.accesses);
        })
        room (omega arith) in
    record { after = rest.after; done = rw (ne→== _ 0 full, fine) rest.done; chars = rest.chars }

-- On ArndaleBoard the UART always has room again within the fuel; the others do not wait.
abbrev pub IsPatient : ArmBoard → Devices → ℕ → Type 0
IsPatient arndale devices fuel =
    (h : List Access) → (n : ℕ) × HasRoom devices Arndale.tty_uart_base h n × (n < fuel)
IsPatient realview devices fuel = Unit {0}
IsPatient sa1100 devices fuel = Unit {0}
IsPatient versatile devices fuel = Unit {0}
IsPatient vexpress_a9 devices fuel = Unit {0}
IsPatient vexpress_a15 devices fuel = Unit {0}

putc-IsPut :
    (b : ArmBoard) (devices : Devices) (fuel c : ℕ) (s : Bus)
    → IsPatient b devices fuel
    → IsPut b (c ∷ []) s (uart_putc b devices fuel c s)
unfolding Arndale.uart_putc Realview.uart_putc Sa1100.uart_putc Versatile.uart_putc
    VexpressA9.uart_putc VexpressA15.uart_putc
putc-IsPut arndale devices fuel c s patient =
    let (n, room, enough) = patient s.accesses in exynos_putc-IsPut devices fuel n c s room enough
putc-IsPut realview devices fuel c s patient = record { after = _; done = refl; chars = refl }
putc-IsPut sa1100 devices fuel c s patient = record { after = _; done = refl; chars = refl }
putc-IsPut versatile devices fuel c s patient = record { after = _; done = refl; chars = refl }
putc-IsPut vexpress_a9 devices fuel c s patient = record { after = _; done = refl; chars = refl }
putc-IsPut vexpress_a15 devices fuel c s patient = record { after = _; done = refl; chars = refl }

-- The calls of `putch_fn` for the characters of a text.
abbrev pub send_text : ArmBoard → Devices → ℕ → List ℕ → M (Unit {0})
send_text b devices fuel [] = pure tt
send_text b devices fuel (c ∷ text) = do uart_putc b devices fuel c; send_text b devices fuel text

pub send_text-IsPut :
    (b : ArmBoard) (devices : Devices) (fuel : ℕ) (text : List ℕ) (s : Bus)
    → IsPatient b devices fuel
    → IsPut b text s (send_text b devices fuel text s)
send_text-IsPut b devices fuel [] s patient = record {
  after = s;
  done = refl;
  chars = sym (append-nil (stored (data_register b) s.accesses));
}
send_text-IsPut b devices fuel (c ∷ text) s patient =
    let first = putc-IsPut b devices fuel c s patient in
    let rest = send_text-IsPut b devices fuel text first.after patient in
    record {
      after = rest.after;
      done = rw first.done rest.done;
      chars =
          rest.chars
          ∙ (ap (λ (l : List ℕ). l ++ text) first.chars
              ∙ append_assoc (stored (data_register b) s.accesses) (c ∷ []) text);
    }
