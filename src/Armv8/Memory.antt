-- ===== src/Armv8/Memory.antt =====
-- The memory map of arch/armv8/mem.c, as its system calls set it up.
use simbench.Base.{
  ℕ, zero, suc, ◌+◌, ◌*◌, ◌%◌, ◌^◌, ◌==◌, ltb, if◌then◌else◌, List, [], ◌∷◌, bit_and, bit_or,
}
use simbench.Base.Outcome.{unfinished, ◌>>=◌, ◌>>◌, pure, modify}
use simbench.Armv8.State.{Core, M}
use simbench.Armv8.Table.{
  get_txln_table, clear_txln_table, mem_create_page_mapping_data, mem_create_page_mapping_code,
  mem_create_page_mapping_device, page_mask,
}

unfoldable pub mem_get_page_size : ℕ
mem_get_page_size = 4096

-- What a loop does with the result of a mapping, a 1 being a return in the middle.
abbrev pub go_on : M ℕ → ℕ → M ℕ
go_on rest failed = if failed == 0 then rest else pure 1

-- The loop of the `mem_create_region_...` functions from address `i` on, with fuel: `i` wraps at 64
-- bits.
unfoldable pub map_from : (ℕ → ℕ → M ℕ) → ℕ → ℕ → ℕ → M ℕ
map_from map_page zero i region_end s = unfinished
map_from map_page (suc fuel) i region_end s =
    let rest =
      (do
        failed ← map_page i i
        go_on (map_from map_page fuel ((i + 4096) % 2 ^ 64) region_end) failed)
        s in
    if ltb region_end i then pure 0 s else rest

unfoldable pub mem_create_region_id_mapping_data : ℕ → ℕ → ℕ → M ℕ
unfolding map_from mem_create_page_mapping_data
mem_create_region_id_mapping_data fuel region_start region_end =
    map_from mem_create_page_mapping_data fuel (bit_and region_start page_mask) region_end

unfoldable pub mem_create_region_id_mapping_code : ℕ → ℕ → ℕ → M ℕ
unfolding map_from mem_create_page_mapping_code
mem_create_region_id_mapping_code fuel region_start region_end =
    map_from mem_create_page_mapping_code fuel (bit_and region_start page_mask) region_end

unfoldable pub mem_create_region_device_mapping : ℕ → ℕ → ℕ → M ℕ
unfolding map_from mem_create_page_mapping_device
mem_create_region_device_mapping fuel region_start region_end =
    map_from mem_create_page_mapping_device fuel (bit_and region_start page_mask) region_end

-- The loop over the devices.
unfoldable pub map_devices : ℕ → List (ℕ × ℕ) → M (Unit {0})
unfolding mem_create_region_device_mapping
map_devices fuel [] = pure tt
map_devices fuel ((start, last) ∷ devices) =
    mem_create_region_device_mapping fuel start last >> map_devices fuel devices

-- The constants: `t0sz` and `t1sz` in their places, and all bits of SCTLR but `wxn`.
abbrev pub tcr_value : ℕ
tcr_value = bit_or 16 (16 * 2 ^ 16)

abbrev pub not_wxn : ℕ
not_wxn = 0xfff7ffff

abbrev pub not_mmu : ℕ
not_mmu = 0xfffffffe

-- The mappings at the end of `syscall_mem_init`; `fuel` is that of each region's loop.
unfoldable pub map_simbench : ℕ → M ℕ
unfolding mem_create_region_id_mapping_code mem_create_region_id_mapping_data map_devices
map_simbench fuel s =
    (do
      mem_create_region_id_mapping_code fuel s.layout.text_start s.layout.text_end
      mem_create_region_id_mapping_data fuel s.layout.data_start s.layout.data_end
      map_devices fuel s.layout.devices
      pure 0)
      s

-- The registers that it writes.
abbrev pub clear_wxn : Core → Core
clear_wxn s = record s { sctlr = bit_and (s.sctlr % 2 ^ 32) not_wxn }

abbrev pub set_ttbr : ℕ → Core → Core
set_ttbr table s = record s { ttbr0 = table; tcr = tcr_value }

unfoldable pub syscall_mem_init : ℕ → M ℕ
unfolding get_txln_table clear_txln_table map_simbench
syscall_mem_init fuel = do
  modify clear_wxn
  table ← get_txln_table
  modify (set_ttbr table)
  clear_txln_table
  map_simbench fuel

unfoldable pub syscall_mem_mmu_enable : M ℕ
syscall_mem_mmu_enable = do modify (λ s. record s { sctlr = bit_or (s.sctlr % 2 ^ 32) 1 }); pure 0

unfoldable pub syscall_mem_mmu_disable : M ℕ
syscall_mem_mmu_disable = do
  modify (λ s. record s { sctlr = bit_and (s.sctlr % 2 ^ 32) not_mmu })
  pure 0
