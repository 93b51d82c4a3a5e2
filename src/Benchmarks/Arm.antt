-- ===== src/Benchmarks/Arm.antt =====
-- The memory benchmarks on the ARM port: arch/arm/mem.c as their architecture, and the loop over the
-- physical memory.
use simbench.Base.{
  ℕ, zero, suc, ◌+◌, ◌*◌, ◌%◌, ◌^◌, ◌≤◌, ◌<◌, ltb, true, false, ◌≡◌, inl, inr, refl, sym, ◌∙◌,
  arith, eq_or_ne, lt→ltb, le→ltb,
}
use native.Mathlib.Decide.{dec_le}
use simbench.Section.Machine.{Machine}
use simbench.Section.Map.{
  Layout, data_descriptor, mem_init, mem_reset, mem_create_page_mapping_data,
}
use simbench.Section.Cache.{mem_mmu_enable, mem_mmu_disable, mem_tlb_flush, mem_tlb_evict}
use simbench.Section.Descriptor.{index_of, mapping_data-eq}
use simbench.Section.Region.{Agrees, write-IsFilled}
use simbench.Benchmarks.Port.{Port, Run, returns}
use simbench.Benchmarks.Memory.{map_physical}

-- A build with ARCH_ARMV7; the fuel is for the regions of `mem_init`, and `operand` for the asm of
-- `mem_mmu_enable`.
abbrev pub arm : (ℕ → ℕ) → ℕ → Layout → Port Machine
arm operand fuel lay = record {
  address_bits = 32;
  mem_get_page_size = 2 ^ 20;
  mem_init = mem_init fuel lay;
  mem_reset = mem_reset fuel lay;
  mem_mmu_enable = mem_mmu_enable operand true;
  mem_mmu_disable = mem_mmu_disable true;
  mem_tlb_flush = mem_tlb_flush;
  mem_tlb_evict = mem_tlb_evict;
  mem_create_page_mapping_data = mem_create_page_mapping_data;
}

abbrev pub with_table : Run Machine → (ℕ → ℕ) → Run Machine
with_table s table = record s { machine = record s.machine { section_table = table } }

-- The sections of the physical memory have what is wanted, from `lo` to below `last`, no section lost
-- it, and only the table changed.
pub record IsCovered (want : ℕ → ℕ) (port : Port Machine) (fuel lo region_end : ℕ) (s : Run Machine)
    : Type 0 where
  pub table : ℕ → ℕ
  pub last : ℕ
  pub done :
      map_physical port fuel (lo * 2 ^ 20) (lo * 2 ^ 20) region_end s
      ≡ returns (last * 2 ^ 20) (with_table s table)
  pub agrees : Agrees want table
  pub kept : (k : ℕ) → s.machine.section_table k ≡ want k → table k ≡ want k
  pub filled : (k : ℕ) → lo ≤ k → k < last → table k ≡ want k
  pub covers : region_end ≤ last * 2 ^ 20
  pub tight : (k : ℕ) → lo ≤ k → k < last → k * 2 ^ 20 < region_end
  pub grows : lo ≤ last

module _ (want operand : ℕ → ℕ) (init_fuel : ℕ) (lay : Layout) where
  pub map_physical-IsCovered :
      (fuel lo region_end : ℕ) (s : Run Machine)
      → region_end ≤ 0xfff00000
      → region_end ≤ (lo + fuel) * 2 ^ 20
      → Agrees want s.machine.section_table
      → ((k : ℕ) → lo ≤ k → k * 2 ^ 20 < region_end → data_descriptor (k * 2 ^ 20) ≡ want k)
      → IsCovered want (arm operand init_fuel lay) fuel lo region_end s
  unfolding map_physical
  map_physical-IsCovered zero lo region_end s bound enough agree wanted =
      let over : ltb (lo * 2 ^ 20) region_end ≡ false = le→ltb _ _ (omega arith) in
      record {
        table = s.machine.section_table;
        last = lo;
        done = rw over refl;
        agrees = agree;
        kept = λ k h. h;
        filled = λ k low high. absurd (omega arith);
        covers = omega arith;
        tight = λ k low high. absurd (omega arith);
        grows = omega arith;
      }
  map_physical-IsCovered (suc fuel) lo region_end s bound enough agree wanted =
      elim (dec_le region_end (lo * 2 ^ 20)) [
        | yes past ↦
            let over : ltb (lo * 2 ^ 20) region_end ≡ false = le→ltb _ _ past in
            record {
              table = s.machine.section_table;
              last = lo;
              done = rw over refl;
              agrees = agree;
              kept = λ k h. h;
              filled = λ k low high. absurd (omega arith);
              covers = past;
              tight = λ k low high. absurd (omega arith);
              grows = omega arith;
            }
        | no more ↦
            let again : ltb (lo * 2 ^ 20) region_end ≡ true = lt→ltb _ _ (omega (arith, more)) in
            let index : index_of (lo * 2 ^ 20) ≡ lo = omega arith in
            let first =
              write-IsFilled want (data_descriptor (lo * 2 ^ 20)) (lo * 2 ^ 20) s.machine agree
                (rw index (wanted lo (omega arith) (omega (arith, more)))) in
            let rest =
              map_physical-IsCovered fuel (suc lo) region_end (with_table s first.table) bound
                (omega arith) first.agrees (λ k low below. wanted k (omega arith) below) in
            let step : (lo * 2 ^ 20 + 2 ^ 20) % 2 ^ 32 ≡ suc lo * 2 ^ 20 = omega (arith, more) in
            let write : mem_create_page_mapping_data (lo * 2 ^ 20) (lo * 2 ^ 20) s.machine
                ≡ returns 0 (record s.machine { section_table = first.table }) =
              mapping_data-eq (lo * 2 ^ 20) (lo * 2 ^ 20) s.machine (omega arith) (omega arith)
              ∙ first.done in
            record {
              table = rest.table;
              last = rest.last;
              done = rw (again, write, step) rest.done;
              agrees = rest.agrees;
              kept = λ k h. rest.kept k (first.kept k h);
              filled = λ k low high. elim (eq_or_ne k lo) [
                | inl same ↦ rest.kept k (first.filled k (same ∙ sym index))
                | inr apart ↦ rest.filled k (omega (arith, apart, low)) high
              ];
              covers = rest.covers;
              tight = λ k low high. elim (eq_or_ne k lo) [
                | inl same ↦ omega (arith, same, more)
                | inr apart ↦ rest.tight k (omega (arith, apart, low)) high
              ];
              grows = omega (arith, rest.grows);
            }
      ]
