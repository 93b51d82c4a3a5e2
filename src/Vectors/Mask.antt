-- ===== src/Vectors/Mask.antt =====
-- The interrupt mask that arch/arm/exception.c sets.
use simbench.Base.{
  ℕ, ◌/◌, ◌%◌, ◌^◌, ◌<◌, ◌==◌, ltb, Bool, true, false, if◌then◌else◌, ◌≡◌, ◌≢◌, refl, sym, ap, ap₂,
  ◌∙◌, arith, ne→==, max, bit_and, bit_or, bit_at, bit_at-bit_or, bit_at-bit_and, bit_and_mask,
  bit_and_field, bit_or_field,
}
use simbench.Base.Words.{bits_of, bit_at-bound}
use simbench.Vectors.Install.{
  Core, mode_irq_disable, not_mode_irq_disable, msr_c, arch_irq_enable, arch_irq_disable,
}

-- Bit 7 of CPSR after the calls, and all the others.
pub record IsMasked (armv7 : Bool) (s : Core) : Type 0 where
  pub enabled : bit_at 7 (arch_irq_enable armv7 s).cpsr ≡ 0
  pub disabled : bit_at 7 (arch_irq_disable armv7 s).cpsr ≡ 1
  pub enabled_rest :
      (n : ℕ) → n < 32 → n ≢ 7 → bit_at n (arch_irq_enable armv7 s).cpsr ≡ bit_at n s.cpsr
  pub disabled_rest :
      (n : ℕ) → n < 32 → n ≢ 7 → bit_at n (arch_irq_disable armv7 s).cpsr ≡ bit_at n s.cpsr

mask-kept : (n : ℕ) → n < 32 → n ≢ 7 → bit_at n not_mode_irq_disable ≡ 1
mask-kept n h other =
    bits_of not_mode_irq_disable (λ m. if m == 7 then 0 else 1) refl n h ∙ rw (ne→== n 7 other) refl

flag-clear : (n : ℕ) → n < 32 → n ≢ 7 → bit_at n mode_irq_disable ≡ 0
flag-clear n h other =
    bits_of mode_irq_disable (λ m. if m == 7 then 1 else 0) refl n h ∙ rw (ne→== n 7 other) refl

clear-rest : (n w : ℕ) → n < 32 → n ≢ 7 → bit_at n (bit_and w not_mode_irq_disable) ≡ bit_at n w
clear-rest n w h other =
    omega (arith, bit_at-bit_and n w not_mode_irq_disable, mask-kept n h other, bit_at-bound n w)

set-rest : (n w : ℕ) → n < 32 → n ≢ 7 → bit_at n (bit_or w mode_irq_disable) ≡ bit_at n w
set-rest n w h other =
    omega (arith, bit_at-bit_or n w mode_irq_disable, flag-clear n h other, bit_at-bound n w)

clear-seven : (w : ℕ) → bit_at 7 (bit_and w not_mode_irq_disable) ≡ 0
clear-seven w = omega (arith, bit_at-bit_and 7 w not_mode_irq_disable, bit_at-bound 7 w)

set-seven : (w : ℕ) → bit_at 7 (bit_or w mode_irq_disable) ≡ 1
set-seven w = omega (arith, bit_at-bit_or 7 w mode_irq_disable, bit_at-bound 7 w)

-- The write of the low byte as bit operations.
msr_c-or :
    (old new : ℕ)
    → old < 2 ^ 32
    → msr_c old new ≡ bit_or (bit_and old 0xffffff00) (bit_and new 0xff)
msr_c-or old new small = sym (
    ap₂ bit_or (bit_and_field 8 24 old) (bit_and_mask 8 new)
    ∙ bit_or_field 8 (old / 2 ^ 8 % 2 ^ 24) (new % 2 ^ 8) (omega arith)
    ∙ omega arith)

msr_c-bits :
    (n old new : ℕ)
    → old < 2 ^ 32
    → n < 32
    → bit_at n (msr_c old new) ≡ (if ltb n 8 then bit_at n new else bit_at n old)
msr_c-bits n old new small h =
    ap (bit_at n) (msr_c-or old new small)
    ∙ bit_at-bit_or n (bit_and old 0xffffff00) (bit_and new 0xff)
    ∙ ap₂ max (bit_at-bit_and n old 0xffffff00) (bit_at-bit_and n new 0xff)
    ∙ ground (
      arith,
      bits_of 0xffffff00 (λ m. if ltb m 8 then 0 else 1) refl n h,
      bits_of 0xff (λ m. if ltb m 8 then 1 else 0) refl n h,
      bit_at-bound n old,
      bit_at-bound n new,
    )

-- A byte written back keeps what the new word keeps.
msr_c-rest :
    (n old new : ℕ)
    → old < 2 ^ 32
    → n < 32
    → bit_at n new ≡ bit_at n old
    → bit_at n (msr_c old new) ≡ bit_at n old
msr_c-rest n old new small h e = ground (arith, msr_c-bits n old new small h)

-- With a 32-bit CPSR, on ARMv7 and on the other builds, `arch_irq_enable` clears the mask of interrupts
-- and `arch_irq_disable` sets it, and neither changes another bit.
pub arch_irq-IsMasked : (armv7 : Bool) (s : Core) → s.cpsr < 2 ^ 32 → IsMasked armv7 s
unfolding arch_irq_enable arch_irq_disable
arch_irq-IsMasked true s small = record {
  enabled = clear-seven s.cpsr;
  disabled = set-seven s.cpsr;
  enabled_rest = λ n h other. clear-rest n s.cpsr h other;
  disabled_rest = λ n h other. set-rest n s.cpsr h other;
}
arch_irq-IsMasked false s small =
    let off = bit_and s.cpsr not_mode_irq_disable in
    let on = bit_or s.cpsr mode_irq_disable in
    record {
      enabled = msr_c-bits 7 s.cpsr off small (omega arith) ∙ clear-seven s.cpsr;
      disabled = msr_c-bits 7 s.cpsr on small (omega arith) ∙ set-seven s.cpsr;
      enabled_rest = λ n h other. msr_c-rest n s.cpsr off small h (clear-rest n s.cpsr h other);
      disabled_rest = λ n h other. msr_c-rest n s.cpsr on small h (set-rest n s.cpsr h other);
    }
