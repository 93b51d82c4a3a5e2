-- ===== src/Platform/Swi.antt =====
-- Software interrupts on the boards with an ARM interrupt controller: after `platform_init`, rounds of
-- `platform_trigger_swi` and `platform_clear_swi`.
use simbench.Base.{
  ℕ, zero, suc, ◌==◌, ◌&&◌, true, false, Bool-cases, ◌≡◌, ◌⊎◌, inl, inr, refl, sym, ap, ◌∙◌, arith,
  List, [], ◌∷◌, ◌+◌,
}
use mathlib.Core.Path.{subst}
use mathlib.Core.Bool.{false≢true}
use simbench.Platform.Bus.{
  store, store32, Bus, M, Devices, Outcome, returns, aborts, and_then, ◌>>◌,
}
use simbench.Platform.Boards.{
  GicBoard, arndale, realview, vexpress_a9, vexpress_a15, virt, gicd_base, gicc_base, platform_init,
  platform_trigger_swi, platform_clear_swi,
}
use simbench.Platform.Signal.{IsOpen, IsSignalled, IsOpen-load, IsOpen-store, stores-IsOpen}
use simbench.Platform.Enable.{Identity, expected, IsSent, IsPrepared}
use simbench.Platform.Trigger.{triggers, trigger-refused, any_not, checks}
use simbench.Platform.Uart.{uart_file, pl011_init}
use simbench.Platform.Arm
use simbench.Platform.Put.{IsPatient, send_text, send_text-IsPut}
use simbench.Printf.Stream.{printf_register_output, printf_register_debug, printf_register_error}
use simbench.Platform.Arndale
use simbench.Platform.Realview
use simbench.Platform.VexpressA9
use simbench.Platform.VexpressA15
use simbench.Platform.Virt

-- A run that ends where the next trigger finds what it needs.
record IsCleared (b : GicBoard) (o : Outcome Bus (Unit {0})) : Type 0 where
  after : Bus
  done : o ≡ returns tt after
  prepared : IsPrepared b after

arndale-IsCleared :
    (devices : Devices) (s : Bus)
    → IsSignalled (gicd_base arndale) (gicc_base arndale) s.accesses
    → IsCleared arndale (platform_clear_swi arndale devices s)
unfolding Arndale.platform_clear_swi
arndale-IsCleared devices s x =
    let sent : IsOpen (gicd_base arndale) (gicc_base arndale) s.accesses =
      subst (λ l. IsOpen (gicd_base arndale) (gicc_base arndale) l) (sym x.last)
        (IsOpen-store _ _ (omega arith, omega arith, omega arith, omega arith, omega arith)
          x.opened) in
    record {
      after = _;
      done = refl;
      prepared =
          IsOpen-store _ _ (omega arith, omega arith, omega arith, omega arith, omega arith)
            (IsOpen-store _ _ (omega arith, omega arith, omega arith, omega arith, omega arith)
              (IsOpen-load _ _ sent));
    }

clears :
    (b : GicBoard) (devices : Devices) (s : Bus)
    → IsSignalled (gicd_base b) (gicc_base b) s.accesses
    → IsCleared b (platform_clear_swi b devices s)
unfolding Realview.platform_clear_swi VexpressA9.platform_clear_swi VexpressA15.platform_clear_swi
    Virt.platform_clear_swi
clears arndale devices s x = arndale-IsCleared devices s x
clears realview devices s x = record { after = _; done = refl; prepared = tt }
clears vexpress_a9 devices s x = record { after = _; done = refl; prepared = tt }
clears vexpress_a15 devices s x = record { after = _; done = refl; prepared = tt }
clears virt devices s x = record { after = _; done = refl; prepared = tt }

-- The set-up of ArndaleBoard, where its identities are right and where one is not.
enable_arndale : (devices : Devices) (s : Bus) → IsCleared arndale (Arndale.enable_swi devices s)
unfolding Arndale.enable_swi
enable_arndale devices s = record {
  after = _;
  done = refl;
  prepared =
      stores-IsOpen Arndale.gicd_base Arndale.gicc_base _ _ _ 0xffff refl refl refl refl refl refl;
}

configure_arndale :
    (devices : Devices) (i : Identity arndale devices) (s : Bus)
    → ((expected arndale i ≡ true) × IsCleared arndale (Arndale.platform_configure_swi devices s))
      ⊎ ((expected arndale i ≡ false) × (Arndale.platform_configure_swi devices s ≡ aborts))
unfolding Arndale.platform_configure_swi
configure_arndale devices i s =
    elim (Bool-cases (i.id0 == 0x90 && (i.id1 == 0xb4 && (i.id2 == 0x2b && i.id3 == 0x0)))) [
      | inr wrong ↦
          inr (rw wrong refl, rw (i.reads0, i.reads1, i.reads2, i.reads3, any_not, wrong) refl)
      | inl right ↦ elim (Bool-cases (i.cpuid0 == 0x202043b)) [
        | inl cpu ↦ inl (
          rw (right, cpu) refl,
          rw (i.reads0, i.reads1, i.reads2, i.reads3, any_not, right, i.reads_cpu, cpu)
              (enable_arndale devices _),
        )
        | inr other ↦ inr (
          rw (right, other) refl,
          rw (i.reads0, i.reads1, i.reads2, i.reads3, any_not, right, i.reads_cpu, other) refl,
        )
      ]
    ]

abbrev pub and_swis : GicBoard → Devices → ℕ → M (Unit {0})
and_swis b devices zero = platform_trigger_swi b devices
and_swis b devices (suc n) = do
  platform_trigger_swi b devices
  platform_clear_swi b devices
  and_swis b devices n

-- The set-up, `n` rounds of an interrupt that is raised and cleared, and one more that is raised.
abbrev pub swis : GicBoard → Devices → ℕ → List ℕ → ℕ → M (Unit {0})
swis b devices fuel digits n = do platform_init b devices fuel digits; and_swis b devices n

IsSent-after :
    (b : GicBoard) {o : Outcome Bus (Unit {0})} (n : M (Unit {0})) {t : Bus}
    → o ≡ returns tt t
    → IsSent b (n t)
    → IsSent b (and_then o (λ _. n))
IsSent-after b n e x =
    subst (λ (o : Outcome Bus (Unit {0})). IsSent b (and_then o (λ _. n))) (sym e) x

aborts-after :
    {o : Outcome Bus (Unit {0})} (n : M (Unit {0})) {t : Bus}
    → o ≡ returns tt t
    → n t ≡ aborts
    → and_then o (λ _. n) ≡ aborts
aborts-after n e x = rw (e, x) refl

and_swis-IsSent :
    (b : GicBoard) (devices : Devices) (i : Identity b devices) (n : ℕ) (s : Bus)
    → expected b i ≡ true
    → IsPrepared b s
    → IsSent b (and_swis b devices n s)
and_swis-IsSent b devices i zero s right ready = triggers b devices i s right ready
and_swis-IsSent b devices i (suc n) s right ready =
    let sent = triggers b devices i s right ready in
    let cleared = clears b devices sent.after sent.signalled in
    IsSent-after b (platform_clear_swi b devices >> and_swis b devices n) sent.done (
      IsSent-after b (and_swis b devices n) cleared.done
        (and_swis-IsSent b devices i n cleared.after right cleared.prepared))

-- The first trigger stops the rounds.
and_swis-refused :
    (b : GicBoard) (devices : Devices) (i : Identity b devices) (n : ℕ) (s : Bus)
    → checks b ≡ true
    → expected b i ≡ false
    → and_swis b devices n s ≡ aborts
and_swis-refused b devices i zero s here wrong = trigger-refused b devices i s here wrong
and_swis-refused b devices i (suc n) s here wrong =
    rw (trigger-refused b devices i s here wrong) refl

-- On ArndaleBoard the UART always has room again within the fuel; the others print nothing.
abbrev pub IsPatientFor : GicBoard → Devices → ℕ → Type 0
IsPatientFor arndale devices fuel = IsPatient Arm.arndale devices fuel
IsPatientFor realview devices fuel = Unit {0}
IsPatientFor vexpress_a9 devices fuel = Unit {0}
IsPatientFor vexpress_a15 devices fuel = Unit {0}
IsPatientFor virt devices fuel = Unit {0}

send_message-eq :
    (devices : Devices) (fuel : ℕ) (text : List ℕ)
    → Arndale.send_message devices fuel text ≡ send_text Arm.arndale devices fuel text
unfolding Arndale.send_message
send_message-eq devices fuel [] = refl
send_message-eq devices fuel (c ∷ text) =
    ap (λ (m : M (Unit {0})). Arndale.uart_putc devices fuel c >> m)
      (send_message-eq devices fuel text)

-- What `platform_init` of ArndaleBoard does behind its message.
abbrev behind_message : Devices → M (Unit {0})
behind_message devices = do
  store32 0x101d000 0
  store32 (Arndale.gpio_base + 0x260) 0x11111111
  store32 (Arndale.gpio_base + 0x268) 0xffff
  Arndale.platform_configure_swi devices

-- `platform_init` of ArndaleBoard ends with the check.
arndale_starts :
    (devices : Devices) (fuel : ℕ) (digits : List ℕ) (s : Bus)
    → IsPatientFor arndale devices fuel
    → (t : Bus) × (platform_init arndale devices fuel digits s
        ≡ Arndale.platform_configure_swi devices t)
unfolding Arndale.platform_init
arndale_starts devices fuel digits s patient =
    let registered = record s {
      streams =
          printf_register_error uart_file
            (printf_register_debug uart_file (printf_register_output uart_file s.streams));
    } in
    let put =
      send_text-IsPut Arm.arndale devices fuel (Arndale.running_on digits) registered patient in
    let t = record put.after {
      accesses =
          store (Arndale.gpio_base + 0x268) 0xffff
          ∷ (store (Arndale.gpio_base + 0x260) 0x11111111
              ∷ (store 0x101d000 0 ∷ put.after.accesses));
    } in
    let said =
      ap (λ (m : M (Unit {0})). m registered)
        (send_message-eq devices fuel (Arndale.running_on digits)) in
    (
      t,
      ap (λ (o : Outcome Bus (Unit {0})). and_then o (λ done. behind_message devices))
          (said ∙ put.done),
    )

-- What `platform_init` does, by the identity.
initialises :
    (b : GicBoard) (devices : Devices) (fuel : ℕ) (digits : List ℕ) (i : Identity b devices)
    (s : Bus)
    → IsPatientFor b devices fuel
    → (((expected b i ≡ true) ⊎ (checks b ≡ true))
        × IsCleared b (platform_init b devices fuel digits s))
      ⊎ ((expected b i ≡ false) × (platform_init b devices fuel digits s ≡ aborts))
unfolding Realview.platform_init VexpressA9.platform_init VexpressA15.platform_init
    Virt.platform_init pl011_init
initialises arndale devices fuel digits i s patient =
    let (t, e) = arndale_starts devices fuel digits s patient in
    elim (configure_arndale devices i t) [
      | inl x ↦ inl (inl x.0, subst (λ o. IsCleared arndale o) (sym e) x.1)
      | inr x ↦ inr (x.0, e ∙ x.1)
    ]
initialises realview devices fuel digits i s patient =
    inl (inr refl, record { after = _; done = refl; prepared = tt })
initialises vexpress_a9 devices fuel digits i s patient =
    inl (inr refl, record { after = _; done = refl; prepared = tt })
initialises vexpress_a15 devices fuel digits i s patient =
    inl (inl refl, record { after = _; done = refl; prepared = tt })
initialises virt devices fuel digits i s patient =
    inl (inl refl, record { after = _; done = refl; prepared = tt })

-- Either the identity is right and the run ends with the interrupt raised, or it is not and the run
-- aborts.
abbrev pub IsAnswered :
    (b : GicBoard) {devices : Devices} → Identity b devices → ℕ → List ℕ → ℕ → Bus → Type 0
IsAnswered b {devices} i fuel digits n s =
    ((expected b i ≡ true) × IsSent b (swis b devices fuel digits n s))
    ⊎ ((expected b i ≡ false) × (swis b devices fuel digits n s ≡ aborts))

-- On a board with an ARM interrupt controller whose identification registers do not change, where the
-- UART of ArndaleBoard always has room again within the fuel for the message that it prints first,
-- `platform_init` and any number of rounds of `platform_trigger_swi` and `platform_clear_swi` with
-- one more trigger return exactly if the registers are as the board expects, and abort otherwise;
-- the last access then raises interrupt 0 on the processor itself, and by the stores before it the
-- interrupt is enabled, both parts of the controller forward it, and its priority is above the mask.
pub swis-IsAnswered :
    (b : GicBoard) (devices : Devices) (fuel : ℕ) (digits : List ℕ) (i : Identity b devices) (n : ℕ)
    (s : Bus)
    → IsPatientFor b devices fuel
    → IsAnswered b i fuel digits n s
swis-IsAnswered b devices fuel digits i n s patient =
    elim (initialises b devices fuel digits i s patient) [
      | inr stopped ↦ inr (stopped.0, rw stopped.1 refl)
      | inl (known, x) ↦ elim (Bool-cases (expected b i)) [
        | inl right ↦ inl (
          right,
          IsSent-after b (and_swis b devices n) x.done
              (and_swis-IsSent b devices i n x.after right x.prepared),
        )
        | inr wrong ↦ elim known [
          | inl right ↦ absurd (false≢true (sym wrong ∙ right))
          | inr here ↦ inr (
            wrong,
            aborts-after (and_swis b devices n) x.done
                (and_swis-refused b devices i n x.after here wrong),
          )
        ]
      ]
    ]
