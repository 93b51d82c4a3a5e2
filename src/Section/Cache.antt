-- ===== src/Section/Cache.antt =====
-- The probes of the processor, the cache and TLB maintenance and the MMU switch of arch/arm/mem.c.
use simbench.Base.{
  ℕ, ◌/◌, ◌^◌, ◌==◌, ltb, leb, Bool, true, false, not, ◌&&◌, ◌||◌, if◌then◌else◌, bit_and, bit_or,
}
use simbench.Section.Machine.{
  prefetch_flush, branch_flush, drain_write_buffer, tlb_flush_all, clean_unified, clean_data,
  arm_flush_dcache, armv5_cache_mmu_off, armv7_cache_mmu_off, tlb_evict_unified, tlb_evict_code,
  tlb_evict_data, Machine, M, returns, aborts, ◌>>◌, modify, mcr,
}

-- The architecture field of the identification register as a version; 0 is an unknown one.
abbrev pub architecture : ℕ → ℕ
architecture n =
    if n == 1 || n == 2
    then 4
    else (if leb 3 n && leb n 6 then 5 else (if n == 7 then 6 else (if n == 0xf then 7 else 0)))

unfoldable pub mem_get_arm_arch_version : Machine → ℕ
mem_get_arm_arch_version s =
    if bit_and s.main_id (2 ^ 19) == 0
    then (if bit_and s.main_id (2 ^ 23) == 0 then 3 else 4)
    else architecture (bit_and (s.main_id / 2 ^ 16) 0xf)

unfoldable pub mem_check_is_tlb_unified : M (Unit {0})
mem_check_is_tlb_unified s =
    modify
      (λ s. record s {
        mem_tlb_unified =
            if ltb (mem_get_arm_arch_version s) 5 then false else bit_and s.tlb_type 1 == 0;
      })
      s

-- The switch has no case for a version above 7.
unfoldable pub mem_check_is_cache_unified : M (Unit {0})
mem_check_is_cache_unified s =
    let version = mem_get_arm_arch_version s in
    if leb version 4
    then returns tt (record s { mem_cache_unified = false })
    else (if leb version 6
        then returns tt (record s {
          mem_cache_implemented = not (bit_and (bit_and s.cache_type 0xfff / 2 ^ 2) 0xf == 1);
          mem_cache_unified = bit_and (s.cache_type / 2 ^ 24) 1 == 0;
        })
        else (if version == 7
            then returns tt (record s { mem_cache_implemented = true })
            else returns tt s))

unfoldable pub mem_tlb_flush : M (Unit {0})
mem_tlb_flush = do mcr tlb_flush_all; mcr prefetch_flush

unfoldable pub mem_tlb_evict : ℕ → M (Unit {0})
mem_tlb_evict ptr s =
    if s.mem_tlb_unified
    then mcr (tlb_evict_unified ptr) s
    else (do mcr (tlb_evict_code ptr); mcr (tlb_evict_data ptr)) s

-- `armv7` says whether ARCH_ARMV7 is defined when the file is compiled.
unfoldable pub clean_cache : Bool → M (Unit {0})
clean_cache armv7 s =
    if leb (mem_get_arm_arch_version s) 5
    then mcr (if s.mem_cache_unified then clean_unified else clean_data) s
    else (if armv7 then mcr arm_flush_dcache s else aborts)

unfoldable pub mem_cache_flush : Bool → M (Unit {0})
mem_cache_flush armv7 s =
    if s.mem_cache_implemented
    then (do clean_cache armv7; mcr drain_write_buffer; mcr prefetch_flush) s
    else returns tt s

-- `c |= 0x1` and the bits of the data cache, the write buffer and the second level.
abbrev pub enabled : ℕ → ℕ
enabled c = bit_or (bit_or c 0x1) (bit_or (bit_or (bit_or (2 ^ 2) (2 ^ 3)) (2 ^ 26)) (2 ^ 14))

-- The asm that writes the control register names its output operand as the source of `mcr` and its
-- input operand as the target of `mrc`. `operand` gives what the register of the output operand holds
-- then, for the value that is in that of the input operand: a choice of the compiler.
unfoldable pub mem_mmu_enable : (ℕ → ℕ) → Bool → M (Unit {0})
mem_mmu_enable operand armv7 = do
  mem_cache_flush armv7
  modify (λ s. record s { control = operand (enabled s.control) })
  mcr prefetch_flush
  mcr branch_flush
  mem_cache_flush armv7

unfoldable pub mem_mmu_disable : Bool → M (Unit {0})
mem_mmu_disable armv7 s =
    if mem_get_arm_arch_version s == 7
    then (if armv7 then mcr armv7_cache_mmu_off s else aborts)
    else (if armv7 then aborts else mcr armv5_cache_mmu_off s)
