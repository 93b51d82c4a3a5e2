-- ===== src/Section/Tests.antt =====
-- The section table at a concrete machine: an ARMv5 core, code at 0x100000, one device, low vectors.
use simbench.Base.{
  ℕ, ◌*◌, ◌^◌, ◌≤◌, ◌<◌, ◌==◌, false, leb, if◌then◌else◌, ◌≡◌, refl, inl, arith, [], ◌∷◌,
}
use simbench.Section.Machine.{Machine}
use simbench.Section.Map.{Layout, data_descriptor, device_descriptor}
use simbench.Section.Descriptor.{IsMapped, mem_create_page_mapping_data-IsMapped}
use simbench.Section.Region.{
  Between, IsFilled, IsEndless, mem_create_region_id_mapping-IsFilled,
  mem_create_region_id_mapping-IsEndless,
}
use simbench.Section.Map.{mem_create_region_id_mapping}
use simbench.Section.Maintenance.{IsEnabled, mem_mmu_enable-IsEnabled}
use simbench.Section.Init.{IsRegion, IsPlan, IsReady, mem_init-IsReady}

abbrev machine : Machine
machine = record {
  section_table = λ index. 0;
  mem_inited = false;
  mem_tlb_unified = false;
  mem_cache_unified = false;
  mem_cache_implemented = false;
  main_id = 0x41069265;
  tlb_type = 0;
  cache_type = 0x1d152152;
  control = 0;
  ttbr = false;
  dacr = 0;
  trace = [];
}

mem_create_page_mapping_data-IsMapped_example : IsMapped 0x500000 0x700000 machine
mem_create_page_mapping_data-IsMapped_example =
    mem_create_page_mapping_data-IsMapped 0x500000 0x700000 machine refl refl (omega arith)
      (inl refl)

-- A machine whose section 7 is taken.
abbrev taken : Machine
taken = record machine { section_table = λ index. if index == 7 then 0x900c0e else 0 }

-- The vectors of 0x300000 at 0, the identity mapping of sections 1 to 4, and a device in section 5.
abbrev wanted : ℕ → ℕ
wanted k =
    if k == 5
    then device_descriptor (k * 2 ^ 20)
    else (if k == 0
        then data_descriptor 0x300000
        else (if leb k 4 then data_descriptor (k * 2 ^ 20) else 0))

wanted-data : (k : ℕ) → 1 ≤ k → k ≤ 4 → data_descriptor (k * 2 ^ 20) ≡ wanted k
wanted-data k h h' = ground arith

wanted-device : (k : ℕ) → Between 5 0x500fff k → device_descriptor (k * 2 ^ 20) ≡ wanted k
wanted-device k on = ground (arith, on.0, on.1)

mem_create_region_id_mapping-IsFilled_example :
    IsFilled wanted
      (Between 1 0x2fffff)
      (mem_create_region_id_mapping 8 0x100000 0x2fffff)
      0
      machine
mem_create_region_id_mapping-IsFilled_example =
    mem_create_region_id_mapping-IsFilled wanted 8 0x100000 0x2fffff machine (omega arith)
      (omega arith) (omega arith) (λ k. inl refl) λ k on. wanted-data k on.0 (omega (arith, on.1))

mem_create_region_id_mapping-IsEndless_example :
    IsEndless (mem_create_region_id_mapping 100000 0xffe00000 0xfff0ffff machine)
mem_create_region_id_mapping-IsEndless_example =
    mem_create_region_id_mapping-IsEndless 100000 0xffe00000 0xfff0ffff machine (omega arith)
      (omega arith)

abbrev layout : Layout
layout = record {
  vectors_start = 0x100000;
  vectors_end = 0x100400;
  text_start = 0x101000;
  text_end = 0x1fffff;
  data_start = 0x200000;
  data_end = 0x2fffff;
  vectors_relocate = 0x300000;
  devices = record { phys_mem_start = 0x500000; phys_mem_end = 0x500fff } ∷ [];
}

in_wanted :
    (lo hi : ℕ) → lo < 2 ^ 32 → 2 ^ 20 ≤ lo → hi < 0x500000 → IsRegion wanted data_descriptor lo hi
in_wanted lo hi start first below = record {
  start_bound = start;
  end_bound = omega arith;
  wanted = λ k on. wanted-data k (omega (arith, on.0, first)) (omega (arith, on.1, below));
}

layout-IsPlan : IsPlan wanted layout 0
layout-IsPlan = record {
  vectors = in_wanted 0x100000 0x100400 (omega arith) (omega arith) (omega arith);
  text = in_wanted 0x101000 0x1fffff (omega arith) (omega arith) (omega arith);
  program_data = in_wanted 0x200000 0x2fffff (omega arith) (omega arith) (omega arith);
  device =
      (record { start_bound = omega arith; end_bound = omega arith; wanted = wanted-device }, tt);
  offsets = refl;
  vector_page = refl;
  relocated = in_wanted 0x300000 0x400000 (omega arith) (omega arith) (omega arith);
}

mem_init-IsReady_example : IsReady wanted 4096 layout machine
mem_init-IsReady_example = mem_init-IsReady wanted 4096 layout machine (omega arith) layout-IsPlan

mem_mmu_enable-IsEnabled_example : IsEnabled (λ c. c) taken
mem_mmu_enable-IsEnabled_example = mem_mmu_enable-IsEnabled (λ c. c) taken refl
