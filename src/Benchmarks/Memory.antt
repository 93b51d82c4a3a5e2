-- ===== src/Benchmarks/Memory.antt =====
-- memory-cold.c, tlb-evict.c and tlb-flush.c of benchmarks/memory, with the set-up of memory-hot.c and
-- memory-nonpriv.c. A platform's region of
-- physical memory is its start and its end; the numbers of iterations are arguments.
use simbench.Base.{ℕ, zero, suc, ◌+◌, ◌%◌, ◌^◌, ltb, leb, if◌then◌else◌}
use simbench.Benchmarks.Port.{
  Port, M, returns, unfinished, ◌>>=◌, ◌>>◌, pure, modify, arch, event, spinner_start, spinner,
  read8, write32,
}

-- The step of the pointer at the end of the loops.
abbrev pub next_pointer : ℕ → ℕ → ℕ → ℕ → ℕ → ℕ
next_pointer address_bits step first region_end ptr =
    let p = (ptr + step) % 2 ^ address_bits in if leb region_end p then first else p

module _ {S : Type 0} (port : Port S) where
  -- memory-cold.c
  unfoldable pub cold_loop : ℕ → ℕ → ℕ → ℕ → M S (Unit {0})
  cold_loop zero ptr first region_end = pure tt
  cold_loop (suc n) ptr first region_end = do
    event spinner
    event (read8 ptr)
    cold_loop n (next_pointer port.address_bits 4096 first region_end ptr) first region_end

  unfoldable pub cold_kernel : ℕ → ℕ → ℕ → ℕ → M S (Unit {0})
  cold_kernel iterations total_iterations first region_end = do
    event (spinner_start iterations)
    cold_loop total_iterations first first region_end

  -- The control run: the same loop without the access.
  unfoldable pub cold_control_loop : ℕ → ℕ → ℕ → ℕ → M S (Unit {0})
  cold_control_loop zero ptr first region_end = pure tt
  cold_control_loop (suc n) ptr first region_end = do
    event spinner
    cold_control_loop n (next_pointer port.address_bits 4096 first region_end ptr) first region_end

  unfoldable pub cold_kernel_control : ℕ → ℕ → ℕ → ℕ → M S (Unit {0})
  cold_kernel_control iterations total_iterations first region_end = do
    event (spinner_start iterations)
    cold_control_loop total_iterations first first region_end

  -- The loop over the pages of the physical memory, which gives the last `vptr`.
  unfoldable pub map_physical : ℕ → ℕ → ℕ → ℕ → M S ℕ
  map_physical zero ptr vptr region_end s =
      if ltb ptr region_end then unfinished else returns vptr s
  map_physical (suc fuel) ptr vptr region_end s =
      let rest =
        map_physical fuel ((ptr + port.mem_get_page_size) % 2 ^ port.address_bits)
          ((vptr + port.mem_get_page_size) % 2 ^ port.address_bits) region_end in
      if ltb ptr region_end
      then (do failed ← arch (port.mem_create_page_mapping_data ptr vptr); rest) s
      else returns vptr s

  unfoldable pub cold_mmu_init : ℕ → ℕ → ℕ → M S (Unit {0})
  cold_mmu_init fuel first region_end = do
    arch port.mem_init
    vptr ← map_physical fuel first first region_end
    arch port.mem_mmu_enable
    arch port.mem_tlb_flush

  -- The clean-up of all of them.
  unfoldable pub kernel_mmu_cleanup : M S (Unit {0})
  kernel_mmu_cleanup = do arch port.mem_mmu_disable; arch port.mem_tlb_flush; arch port.mem_reset

  -- memory-hot.c
  unfoldable pub hot_mmu_init : M S (Unit {0})
  hot_mmu_init = do arch port.mem_init; arch port.mem_mmu_enable; arch port.mem_tlb_flush

  -- memory-nonpriv.c; `value` is the address of its static variable.
  unfoldable pub nonpriv_mmu_init : ℕ → M S (Unit {0})
  nonpriv_mmu_init value = do
    arch port.mem_init
    failed ← arch (port.mem_create_page_mapping_data value value)
    arch port.mem_mmu_enable
    arch port.mem_tlb_flush

  -- tlb-evict.c and tlb-flush.c
  unfoldable pub tlb_mmu_init : ℕ → ℕ → ℕ → M S (Unit {0})
  tlb_mmu_init fuel first region_end = do
    arch port.mem_init
    modify (λ s. record s { virt_start = first })
    vptr ← map_physical fuel first first region_end
    modify (λ s. record s { virt_end = vptr })
    arch port.mem_mmu_enable
    arch port.mem_tlb_flush

  unfoldable pub evict_loop : ℕ → ℕ → ℕ → ℕ → M S (Unit {0})
  evict_loop zero ptr first region_end = pure tt
  evict_loop (suc n) ptr first region_end = do
    event spinner
    event (write32 ptr 0x12345678)
    arch (port.mem_tlb_evict ptr)
    evict_loop n (next_pointer port.address_bits port.mem_get_page_size first region_end ptr) first
        region_end

  unfoldable pub flush_loop : ℕ → ℕ → ℕ → ℕ → M S (Unit {0})
  flush_loop zero ptr first region_end = pure tt
  flush_loop (suc n) ptr first region_end = do
    event spinner
    event (write32 ptr 0x12345678)
    arch port.mem_tlb_flush
    flush_loop n (next_pointer port.address_bits port.mem_get_page_size first region_end ptr) first
        region_end

  unfoldable pub evict_kernel : ℕ → ℕ → M S (Unit {0})
  evict_kernel iterations total_iterations s =
      (do
        event (spinner_start iterations)
        evict_loop total_iterations s.virt_start s.virt_start s.virt_end)
        s

  unfoldable pub flush_kernel : ℕ → ℕ → M S (Unit {0})
  flush_kernel iterations total_iterations s =
      (do
        event (spinner_start iterations)
        flush_loop total_iterations s.virt_start s.virt_start s.virt_end)
        s
