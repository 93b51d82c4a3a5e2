-- ===== src/Section/Machine.antt =====
-- The state of arch/arm/mem.c with the registers of coprocessor 15 that it uses.
use simbench.Base.{ℕ, ◌==◌, Bool, if◌then◌else◌, List, ◌∷◌}
pub use simbench.Base.Outcome.{
  Outcome, returns, aborts, unfinished, and_then, ◌>>=◌, ◌>>◌, pure, modify,
}

-- The maintenance operations, by the `mcr` that asks for them or the routine of arch/arm/cache.S
-- that is called.
pub data Cp15 : Type 0 where
  prefetch_flush branch_flush drain_write_buffer tlb_flush_all : Cp15
  clean_unified clean_data arm_flush_dcache armv5_cache_mmu_off armv7_cache_mmu_off : Cp15
  tlb_evict_unified tlb_evict_code tlb_evict_data : ℕ → Cp15

-- `section_table` gives the 32-bit descriptor at each index. `main_id`, `tlb_type`, `cache_type` and
-- `control` are the processor's, and `trace` has the maintenance operations, the last one first.
pub record Machine : Type 0 where
  pub section_table : ℕ → ℕ
  pub mem_inited : Bool
  pub mem_tlb_unified : Bool
  pub mem_cache_unified : Bool
  pub mem_cache_implemented : Bool
  pub main_id : ℕ
  pub tlb_type : ℕ
  pub cache_type : ℕ
  pub control : ℕ
  pub ttbr : Bool
  pub dacr : ℕ
  pub trace : List Cp15

abbrev pub M : Type 0 → Type 0
M A = Machine → Outcome Machine A

abbrev pub arch_abort : {A : Type 0} → M A
arch_abort s = aborts

-- One maintenance operation.
abbrev pub mcr : Cp15 → M (Unit {0})
mcr op s = returns tt (record s { trace = op ∷ s.trace })

abbrev pub update : (ℕ → ℕ) → ℕ → ℕ → ℕ → ℕ
update f a v b = if b == a then v else f b
