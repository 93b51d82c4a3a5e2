-- ===== src/Section/Map.antt =====
-- The mappings of arch/arm/mem.c and its initialisation.
use simbench.Base.{
  ℕ, zero, suc, ◌+◌, ◌-◌, ◌/◌, ◌%◌, ◌^◌, ◌==◌, leb, Bool, true, false, not, ◌&&◌, ◌||◌,
  if◌then◌else◌, bit_and, bit_or, List, [], ◌∷◌,
}
use simbench.Section.Machine.{
  Machine, M, returns, aborts, unfinished, pure, arch_abort, ◌>>=◌, ◌>>◌, modify, update,
}
use simbench.Section.Cache.{mem_check_is_tlb_unified, mem_check_is_cache_unified}

abbrev pub mem_get_page_size : ℕ
mem_get_page_size = 2 ^ 20

-- `base | (TEX << 12) | (AP << 10) | (domain << 5) | (C << 3) | (B << 2) | 0x2`, with no TEX, AP 3
-- and domain 0 in both kinds of mapping.
unfoldable pub descriptor : ℕ → ℕ → ℕ → ℕ
descriptor cached buffered phys_addr =
    bit_or
      (bit_or (bit_or (bit_or (bit_or (bit_or (bit_and phys_addr 0xfff00000) 0) 0xc00) 0) cached)
        buffered)
      0x2

abbrev pub data_descriptor : ℕ → ℕ
data_descriptor = descriptor (2 ^ 3) (2 ^ 2)

abbrev pub device_descriptor : ℕ → ℕ
device_descriptor = descriptor 0 0

-- `a & (mem_get_page_size() - 1)` is not zero.
abbrev pub misaligned : ℕ → Bool
misaligned a = not (bit_and a (mem_get_page_size - 1) == 0)

-- The end of both mapping functions: the descriptor is written, but never over another one.
unfoldable pub write_section : ℕ → ℕ → M ℕ
write_section word virt_addr s =
    let old = s.section_table (virt_addr / 2 ^ 20) in
    if not (old == 0) && not (old == word)
    then aborts
    else returns 0 (record s { section_table = update s.section_table (virt_addr / 2 ^ 20) word })

unfoldable pub mem_create_page_mapping_data : ℕ → ℕ → M ℕ
mem_create_page_mapping_data phys_addr virt_addr =
    if misaligned phys_addr || misaligned virt_addr
    then pure 1
    else write_section (data_descriptor phys_addr) virt_addr

unfoldable pub mem_create_page_mapping_code : ℕ → ℕ → M ℕ
mem_create_page_mapping_code phys_addr virt_addr = mem_create_page_mapping_data phys_addr virt_addr

unfoldable pub mem_create_page_mapping_device : ℕ → ℕ → M ℕ
mem_create_page_mapping_device phys_addr virt_addr =
    if misaligned phys_addr || misaligned virt_addr
    then pure 1
    else write_section (device_descriptor phys_addr) virt_addr

-- The loop of the two region functions, from `i` on; `i` wraps at 32 bits.
unfoldable pub map_region : (ℕ → ℕ → M ℕ) → ℕ → ℕ → ℕ → M ℕ
map_region mapping zero i region_end s = if leb i region_end then unfinished else returns 0 s
map_region mapping (suc fuel) i region_end s =
    let rest = map_region mapping fuel ((i + mem_get_page_size) % 2 ^ 32) region_end in
    if leb i region_end
    then (do failed ← mapping i i; if failed == 0 then rest else pure 1) s
    else returns 0 s

-- `region_start & ~(page_size - 1)`.
abbrev pub section_of : ℕ → ℕ
section_of a = bit_and a 0xfff00000

unfoldable pub mem_create_region_id_mapping : ℕ → ℕ → ℕ → M ℕ
mem_create_region_id_mapping fuel region_start region_end =
    map_region mem_create_page_mapping_data fuel (section_of region_start) region_end

unfoldable pub mem_create_region_device_mapping : ℕ → ℕ → ℕ → M ℕ
mem_create_region_device_mapping fuel region_start region_end =
    map_region mem_create_page_mapping_device fuel (section_of region_start) region_end

-- `phys_mem_info_t` of include/mem.h; its list is a list here.
pub record PhysMemInfo : Type 0 where
  pub phys_mem_start : ℕ
  pub phys_mem_end : ℕ

-- The linker's symbols and the platform's devices.
pub record Layout : Type 0 where
  pub vectors_start : ℕ
  pub vectors_end : ℕ
  pub text_start : ℕ
  pub text_end : ℕ
  pub data_start : ℕ
  pub data_end : ℕ
  pub vectors_relocate : ℕ
  pub devices : List PhysMemInfo

unfoldable pub map_devices : ℕ → List PhysMemInfo → M (Unit {0})
map_devices fuel [] = pure tt
map_devices fuel (dev ∷ next_mem) = do
  mem_create_region_device_mapping fuel dev.phys_mem_start dev.phys_mem_end
  map_devices fuel next_mem

-- The base of the exception vectors, by bit 13 of the control register.
abbrev pub vector_vaddr : Machine → ℕ
vector_vaddr s = if bit_and s.control (2 ^ 13) == 0 then 0 else 0xffff0000

abbrev pub map_vectors_at : ℕ → Layout → M ℕ
map_vectors_at vaddr lay =
    if bit_and vaddr (mem_get_page_size - 1) == bit_and lay.vectors_relocate (mem_get_page_size - 1)
    then mem_create_page_mapping_data (section_of lay.vectors_relocate) (section_of vaddr)
    else arch_abort

unfoldable pub map_vectors : Layout → M ℕ
map_vectors lay s = map_vectors_at (vector_vaddr s) lay s

-- The mappings that `mem_init` makes.
unfoldable pub map_program : ℕ → Layout → M ℕ
map_program fuel lay = do
  mem_create_region_id_mapping fuel lay.vectors_start lay.vectors_end
  mem_create_region_id_mapping fuel lay.text_start lay.text_end
  mem_create_region_id_mapping fuel lay.data_start lay.data_end
  map_devices fuel lay.devices
  map_vectors lay
  mem_create_region_id_mapping fuel (section_of lay.vectors_relocate)
      ((section_of lay.vectors_relocate + mem_get_page_size) % 2 ^ 32)

-- `write_ttbr(section_table)` and `bzero(section_table)`.
abbrev pub clear_table : Machine → Machine
clear_table s = record s { ttbr = true; section_table = λ index. 0 }

abbrev pub finish_init : Machine → Machine
finish_init s = record s { dacr = 0xffffffff; mem_inited = true }

unfoldable pub mem_init : ℕ → Layout → M (Unit {0})
mem_init fuel lay = do
  mem_check_is_tlb_unified
  mem_check_is_cache_unified
  modify clear_table
  map_program fuel lay
  modify finish_init

unfoldable pub mem_reset : ℕ → Layout → M (Unit {0})
mem_reset fuel lay = do modify (λ s. record s { mem_inited = false }); mem_init fuel lay
