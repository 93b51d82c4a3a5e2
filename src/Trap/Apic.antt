-- ===== src/Trap/Apic.antt =====
-- The local APIC in arch/x86_64/irq.c.
use simbench.Base.{
  ℕ, zero, suc, ◌/◌, ◌^◌, ◌==◌, if◌then◌else◌, List, [], ◌∷◌, Option, none, some, bit_and, bit_or,
}
use simbench.Trap.State.{returns, unfinished, M, ◌>>◌, modify}

-- The registers and their bits, arch/x86_64/irq.h.
abbrev pub tpr : ℕ
tpr = 0x80

abbrev pub eoi : ℕ
eoi = 0xb0

abbrev pub svr : ℕ
svr = 0xf0

abbrev pub esr : ℕ
esr = 0x280

abbrev pub icrlo : ℕ
icrlo = 0x300

abbrev pub icrhi : ℕ
icrhi = 0x310

abbrev pub timer : ℕ
timer = 0x320

abbrev pub lint0 : ℕ
lint0 = 0x350

abbrev pub lint1 : ℕ
lint1 = 0x360

abbrev pub lerror : ℕ
lerror = 0x370

abbrev pub ticr : ℕ
ticr = 0x380

abbrev pub tdcr : ℕ
tdcr = 0x3e0

abbrev pub delivs : ℕ
delivs = 0x1000

abbrev pub masked : ℕ
masked = 0x10000

abbrev pub lapic_write : ℕ → ℕ → M (Unit {0})
lapic_write reg value = modify (λ s. record s { lapic = (reg / 2 ^ 2, value) ∷ s.lapic })

unfoldable pub lapic_acknowledge_irq : M (Unit {0})
lapic_acknowledge_irq = lapic_write eoi 0

unfoldable pub lapic_issue_interrupt : ℕ → M (Unit {0})
lapic_issue_interrupt irq = do lapic_write icrhi 0; lapic_write icrlo (bit_and irq 0xff)

unfoldable pub lapic_timer_start : M (Unit {0})
lapic_timer_start = lapic_write timer 32

unfoldable pub lapic_timer_stop : M (Unit {0})
lapic_timer_stop = lapic_write timer masked

unfoldable pub lapic_timer_reset : M (Unit {0})
lapic_timer_reset = do lapic_write timer masked; lapic_write tdcr 3; lapic_write ticr 0xffffffff

-- The device: `reads n` is what the n-th read of ICRLO gives.
-- `while (lapic_read(ICRLO) & DELIVS);`, from the n-th read on.
unfoldable pub wait_delivered : (ℕ → ℕ) → ℕ → ℕ → M (Unit {0})
wait_delivered reads zero n s = unfinished
wait_delivered reads (suc fuel) n s =
    let rest = wait_delivered reads fuel (suc n) s in
    if bit_and (reads n) delivs == 0 then returns tt s else rest

-- The writes in front of the loop and behind it.
unfoldable pub lapic_reset : M (Unit {0})
lapic_reset = do
  lapic_write svr 0x1ff
  lapic_write timer masked
  lapic_write lint0 masked
  lapic_write lint1 masked
  lapic_write lerror masked
  lapic_write esr 0
  lapic_write esr 0
  lapic_write eoi 0
  lapic_write icrhi 0
  lapic_write icrlo (bit_or (bit_or 0x80000 0x500) 0x8000)

unfoldable pub lapic_init : (ℕ → ℕ) → ℕ → M (Unit {0})
unfolding lapic_reset lapic_timer_reset
lapic_init reads fuel = do
  lapic_reset
  wait_delivered reads fuel 0
  lapic_write tpr 0
  lapic_timer_reset

-- What a register holds after the writes.
abbrev pub last_write : ℕ → List (ℕ × ℕ) → Option ℕ
last_write reg [] = none
last_write reg ((r, v) ∷ writes) = if r == reg / 2 ^ 2 then some v else last_write reg writes
