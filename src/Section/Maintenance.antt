-- ===== src/Section/Maintenance.antt =====
-- The MMU switch of arch/arm/mem.c.
use simbench.Base.{
  ℕ, ◌≡◌, refl, arith, true, Bool-cases, inl, inr, leb, max, bit_or, bit_at, bit_at-bit_or, ◌∷◌,
  ◌∙◌,
}
use simbench.Section.Machine.{Machine, returns, branch_flush, prefetch_flush}
use simbench.Section.Cache.{
  clean_cache, mem_cache_flush, mem_mmu_enable, mem_get_arm_arch_version, enabled,
}

-- A flush on an ARMv7 build returns and writes nothing but the trace.
flush_returns :
    (s : Machine)
    → (after : Machine) × (mem_cache_flush true s ≡ returns tt after)
      × (after.control ≡ s.control)
      × (after.section_table ≡ s.section_table)
unfolding mem_cache_flush clean_cache
flush_returns s = elim (Bool-cases s.mem_cache_implemented) [
  | inl e ↦ elim (Bool-cases (leb (mem_get_arm_arch_version s) 5)) [
    | inl e' ↦ rw (e', e) (_, refl, refl, refl)
    | inr e' ↦ rw (e', e) (_, refl, refl, refl)
  ]
  | inr e ↦ rw e (_, refl, refl, refl)
]

-- The bits of the control register that are switched on: the MMU, the data cache, the write buffer,
-- the second level and the replacement strategy.
abbrev pub switched : ℕ
switched = 0x400400d

-- What `mem_mmu_enable` did, whatever its asm wrote.
pub record IsWritten (operand : ℕ → ℕ) (s : Machine) : Type 0 where
  pub after : Machine
  pub done : mem_mmu_enable operand true s ≡ returns tt after
  pub control : after.control ≡ operand (enabled s.control)
  pub table_same : after.section_table ≡ s.section_table

enabled_bits : (n c : ℕ) → bit_at n (enabled c) ≡ max (bit_at n c) (bit_at n switched)
enabled_bits n c = omega (
  arith,
  bit_at-bit_or n (bit_or c 0x1) 0x400400c,
  bit_at-bit_or n c 0x1,
  bit_at-bit_or n 0x1 0x400400c,
)

-- On an ARMv7 build `mem_mmu_enable` returns and leaves the section table.
pub mem_mmu_enable-IsWritten : (operand : ℕ → ℕ) (s : Machine) → IsWritten operand s
unfolding mem_mmu_enable
mem_mmu_enable-IsWritten operand s =
    let first = flush_returns s in
    let rest = flush_returns (record first.0 {
      control = operand (enabled first.0.control);
      trace = branch_flush ∷ (prefetch_flush ∷ first.0.trace);
    }) in
    record {
      after = rest.0;
      done = rw first.1 rest.1;
      control = rw rest.2 (rw first.2 refl);
      table_same = rest.3 ∙ first.3;
    }

-- What `mem_mmu_enable` means to do.
pub record IsEnabled (operand : ℕ → ℕ) (s : Machine) : Type 0 where
  pub after : Machine
  pub done : mem_mmu_enable operand true s ≡ returns tt after
  pub bits : (n : ℕ) → bit_at n after.control ≡ max (bit_at n s.control) (bit_at n switched)
  pub table_same : after.section_table ≡ s.section_table

-- On an ARMv7 build, where the compiler gives the output operand of the asm that writes the control
-- register the register of its input operand, `mem_mmu_enable` returns whatever the processor's version
-- and caches are; it sets the five bits of the control register, keeps its other bits and leaves the
-- section table.
pub mem_mmu_enable-IsEnabled :
    (operand : ℕ → ℕ) (s : Machine)
    → operand (enabled s.control) ≡ enabled s.control
    → IsEnabled operand s
mem_mmu_enable-IsEnabled operand s shared =
    let written = mem_mmu_enable-IsWritten operand s in
    record {
      after = written.after;
      done = written.done;
      bits = λ n. rw (written.control, shared) (enabled_bits n s.control);
      table_same = written.table_same;
    }
