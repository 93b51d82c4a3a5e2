-- ===== src/Paging/Map.antt =====
-- The operations of arch/x86_64/mem.c.
use simbench.Base.{
  ℕ, zero, suc, ◌+◌, ◌-◌, ◌*◌, ◌/◌, ◌%◌, ◌^◌, ◌==◌, ltb, true, if◌then◌else◌, bit_or, some,
}
use simbench.Paging.Entry.{
  pf_present, pf_writable, pf_user, set_base_address, get_base_address, set_flags, is_present,
  calculate_indicies,
}
use simbench.Paging.Machine.{
  M, default_page_fault_handler, pure, arch_abort, ◌>>=◌, ◌>>◌, load, store, heap_alloc_page,
  Symbols,
}

-- `PF_PRESENT | PF_WRITABLE | PF_USER`.
abbrev pub table_flags : ℕ
table_flags = bit_or (bit_or pf_present pf_writable) pf_user

-- `&((pte *)table)[index]`, the 64-bit address.
abbrev pub entry_at : ℕ → ℕ → ℕ
entry_at table index = table + 8 * index

-- `if (get_base_address(e) == 0) set_base_address(e, heap_alloc_page())`.
unfoldable pub give_page : ℕ → M (Unit {0})
give_page e = do
  pte ← load e
  if get_base_address pte == 0
      then (do page ← heap_alloc_page; old ← load e; store e (set_base_address old page))
      else pure tt

-- The block that `__create_page_mapping` repeats for `pml`, `pdp` and `pd`: the entry at `e` is made
-- present, with a fresh page where it has none, and the table that it points to is returned.
unfoldable pub ensure_table : ℕ → M ℕ
unfolding give_page
ensure_table e = do
  pte ← load e
  if is_present pte
      then pure tt
      else (do give_page e; old ← load e; store e (set_flags old table_flags))
  now ← load e
  pure (get_base_address now)

-- The last four lines of `__create_page_mapping`.
unfoldable pub write_leaf : ℕ → ℕ → M (Unit {0})
write_leaf e phys_addr = do
  old ← load e
  store e (set_base_address old phys_addr)
  based ← load e
  store e (set_flags based table_flags)

unfoldable pub create_page_mapping : ℕ → ℕ → ℕ → M (Unit {0})
create_page_mapping pml4 phys_addr virt_addr = do
  let idx = calculate_indicies virt_addr
  pdp_table ← ensure_table (entry_at pml4 idx.pml)
  pd_table ← ensure_table (entry_at pdp_table idx.pdp)
  pt_table ← ensure_table (entry_at pd_table idx.pd)
  write_leaf (entry_at pt_table idx.pt) phys_addr

unfoldable pub mem_create_page_mapping_data : ℕ → ℕ → M (Unit {0})
mem_create_page_mapping_data phys_addr virt_addr s =
    create_page_mapping s.runtime_pagetables phys_addr virt_addr s

unfoldable pub mem_create_page_mapping_code : ℕ → ℕ → M (Unit {0})
mem_create_page_mapping_code phys_addr virt_addr s =
    create_page_mapping s.runtime_pagetables phys_addr virt_addr s

unfoldable pub mem_create_page_mapping_device : ℕ → ℕ → M (Unit {0})
mem_create_page_mapping_device phys_addr virt_addr = arch_abort

-- The loop has `nr_pages` rounds; both addresses wrap at 64 bits.
unfoldable pub map_page_ranges : ℕ → ℕ → ℕ → M (Unit {0})
map_page_ranges phys_addr virt_addr zero = pure tt
map_page_ranges phys_addr virt_addr (suc nr_pages) = do
  mem_create_page_mapping_data phys_addr virt_addr
  map_page_ranges ((phys_addr + 0x1000) % 2 ^ 64) ((virt_addr + 0x1000) % 2 ^ 64) nr_pages

abbrev pub write_cr3 : ℕ → M (Unit {0})
write_cr3 addr s = some (tt, record s { cr3 = addr })

abbrev pub read_cr3 : M ℕ
read_cr3 s = some (s.cr3, s)

unfoldable pub mem_tlb_flush : M (Unit {0})
mem_tlb_flush = do addr ← read_cr3; write_cr3 addr

abbrev pub lapic : ℕ
lapic = 0xfee00000

-- `NR_PAGES(a, b)`; `-` wraps at 64 bits.
abbrev pub nr_pages : ℕ → ℕ → ℕ
nr_pages a b = (b + 2 ^ 64 - a) % 2 ^ 64 / 0x1000 + 1

-- The rounds of `map_page_ranges` when `n` is cut to its `int` parameter: none if that is negative.
abbrev pub rounds : ℕ → ℕ
rounds n = if ltb (n % 2 ^ 32) (2 ^ 31) then n % 2 ^ 32 else 0

abbrev pub set_runtime_pagetables : ℕ → M (Unit {0})
set_runtime_pagetables page s = some (tt, record s { runtime_pagetables = page })

unfoldable pub prepare_runtime_pagetables : Symbols → M (Unit {0})
unfolding mem_tlb_flush
prepare_runtime_pagetables sym = do
  map_page_ranges 0xb8000 0xb8000 1
  map_page_ranges sym.text_start sym.text_start (rounds (nr_pages sym.text_start sym.text_end))
  map_page_ranges sym.data_start sym.data_start (rounds (nr_pages sym.data_start sym.data_end))
  map_page_ranges sym.heap_start sym.heap_start (rounds (sym.heap_bytes / 2 ^ 12))
  mem_create_page_mapping_data lapic lapic
  mem_tlb_flush

abbrev pub irq_reset_page_fault_handler : M (Unit {0})
irq_reset_page_fault_handler s =
    some (tt, record s { page_fault_handler_fn = default_page_fault_handler })

unfoldable pub mem_init : Symbols → M (Unit {0})
mem_init sym s =
    if s.mem_inited
    then some (tt, s)
    else (do
      irq_reset_page_fault_handler
      page ← heap_alloc_page
      set_runtime_pagetables page
      prepare_runtime_pagetables sym)
        (record s { mem_inited = true })

unfoldable pub mem_reset : M (Unit {0})
mem_reset = irq_reset_page_fault_handler

unfoldable pub mem_mmu_enable : M (Unit {0})
mem_mmu_enable s = some (tt, record s { cr3 = s.runtime_pagetables })

unfoldable pub mem_mmu_disable : M (Unit {0})
mem_mmu_disable s = some (tt, record s { cr3 = s.initial_pagetables })

unfoldable pub early_mem_init : M (Unit {0})
unfolding mem_tlb_flush
early_mem_init s =
    (do create_page_mapping 0x8000 lapic lapic; mem_tlb_flush)
      (record s { initial_pagetables = 0x8000 })
