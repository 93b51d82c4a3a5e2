-- ===== src/Section/Init.antt =====
-- `mem_init` of arch/arm/mem.c.
use simbench.Base.{
  ℕ, ◌+◌, ◌-◌, ◌*◌, ◌/◌, ◌%◌, ◌^◌, ◌≤◌, ◌<◌, ◌==◌, leb, true, ◌≡◌, ◌⊎◌, inl, inr, refl, sym, ◌∙◌,
  arith, List, [], ◌∷◌, bit_and, bit_and_mask, eq→==, Bool-cases,
}
use simbench.Section.Machine.{Machine, returns, ◌>>◌}
use simbench.Section.Cache.{
  mem_check_is_tlb_unified, mem_check_is_cache_unified, mem_get_arm_arch_version,
}
use simbench.Section.Map.{
  data_descriptor, device_descriptor, section_of, PhysMemInfo, Layout, map_devices, vector_vaddr,
  map_vectors_at, map_vectors, map_program, clear_table, finish_init, mem_init,
  mem_create_region_id_mapping,
}
use simbench.Section.Descriptor.{index_of, section_of-eq, mapping_data-eq}
use simbench.Section.Region.{
  Agrees, Between, IsFilled, IsFilled-then, write-IsFilled, mem_create_region_id_mapping-IsFilled,
  mem_create_region_device_mapping-IsFilled,
}

-- A region of 32-bit addresses that ends below the last section, with what it wants.
pub record IsRegion (want desc : ℕ → ℕ) (lo hi : ℕ) : Type 0 where
  pub start_bound : lo < 2 ^ 32
  pub end_bound : hi < 0xfff00000
  pub wanted : (k : ℕ) → Between (lo / 2 ^ 20) hi k → desc (k * 2 ^ 20) ≡ want k

abbrev pub AreDevices : (ℕ → ℕ) → List PhysMemInfo → Type 0
AreDevices want [] = Unit {0}
AreDevices want (dev ∷ next_mem) =
    IsRegion want device_descriptor dev.phys_mem_start dev.phys_mem_end × AreDevices want next_mem

-- The sections of the devices.
abbrev pub OnDevice : List PhysMemInfo → ℕ → Type 0
OnDevice [] k = k < 0
OnDevice (dev ∷ next_mem) k =
    Between (dev.phys_mem_start / 2 ^ 20) dev.phys_mem_end k ⊎ OnDevice next_mem k

-- `want` is a table that has every mapping that `mem_init` makes where the exception vectors are at
-- `vaddr`: no two of them differ.
pub record IsPlan (want : ℕ → ℕ) (lay : Layout) (vaddr : ℕ) : Type 0 where
  pub vectors : IsRegion want data_descriptor lay.vectors_start lay.vectors_end
  pub text : IsRegion want data_descriptor lay.text_start lay.text_end
  pub program_data : IsRegion want data_descriptor lay.data_start lay.data_end
  pub device : AreDevices want lay.devices
  pub offsets : vaddr % 2 ^ 20 ≡ lay.vectors_relocate % 2 ^ 20
  pub vector_page : data_descriptor (section_of lay.vectors_relocate) ≡ want (index_of (vaddr))
  pub relocated :
      IsRegion want data_descriptor
        (section_of lay.vectors_relocate)
        ((section_of lay.vectors_relocate + 2 ^ 20) % 2 ^ 32)

-- The sections that `mem_init` maps.
abbrev pub OnProgram : Layout → ℕ → ℕ → Type 0
OnProgram lay vaddr k =
    Between (lay.vectors_start / 2 ^ 20) lay.vectors_end k
    ⊎ (Between (lay.text_start / 2 ^ 20) lay.text_end k
        ⊎ (Between (lay.data_start / 2 ^ 20) lay.data_end k
            ⊎ (OnDevice lay.devices k
                ⊎ ((k ≡ index_of (vaddr))
                    ⊎ Between (section_of lay.vectors_relocate / 2 ^ 20)
                        ((section_of lay.vectors_relocate + 2 ^ 20) % 2 ^ 32) k))))

module _ (want : ℕ → ℕ) (fuel : ℕ) (enough : 4096 ≤ fuel) where
  region :
      {lo hi : ℕ} (s : Machine)
      → Agrees want s.section_table
      → IsRegion want data_descriptor lo hi
      → IsFilled want (Between (lo / 2 ^ 20) hi) (mem_create_region_id_mapping fuel lo hi) 0 s
  region {lo} {hi} s agree r =
      mem_create_region_id_mapping-IsFilled want fuel lo hi s r.start_bound r.end_bound
        (omega (arith, r.end_bound)) agree r.wanted

  map_devices-IsFilled :
      (devs : List PhysMemInfo) (s : Machine)
      → Agrees want s.section_table
      → AreDevices want devs
      → IsFilled want (OnDevice devs) (map_devices fuel devs) tt s
  unfolding map_devices
  map_devices-IsFilled [] s agree all = record {
    table = s.section_table;
    done = refl;
    agrees = agree;
    filled = λ k on. absurd (omega arith);
    kept = λ k h. h;
  }
  map_devices-IsFilled (dev ∷ next_mem) s agree all =
      let first =
        mem_create_region_device_mapping-IsFilled want fuel dev.phys_mem_start dev.phys_mem_end s
          all.0.start_bound all.0.end_bound (omega (arith, all.0.end_bound)) agree all.0.wanted in
      IsFilled-then first (
        map_devices-IsFilled next_mem (record s { section_table = first.table }) first.agrees all.1)

  vectors_at-IsFilled :
      (v : ℕ) (lay : Layout) (s : Machine)
      → v < 2 ^ 32
      → v % 2 ^ 20 ≡ lay.vectors_relocate % 2 ^ 20
      → data_descriptor (section_of lay.vectors_relocate) ≡ want (index_of v)
      → Agrees want s.section_table
      → IsFilled want (λ k. k ≡ index_of v) (map_vectors_at v lay) 0 s
  vectors_at-IsFilled v lay s small same e agree =
      let index : index_of (section_of v) ≡ index_of v = omega (arith, section_of-eq v) in
      let written =
        write-IsFilled want (data_descriptor (section_of lay.vectors_relocate)) (section_of v) s
          agree (rw index e) in
      let pass : (bit_and v (2 ^ 20 - 1) == bit_and lay.vectors_relocate (2 ^ 20 - 1)) ≡ true =
        rw (bit_and_mask 20 v, bit_and_mask 20 lay.vectors_relocate) (eq→== _ _ same) in
      let map =
        mapping_data-eq (section_of lay.vectors_relocate) (section_of v) s
          (omega (arith, section_of-eq lay.vectors_relocate)) (omega (arith, section_of-eq v)) in
      record {
        table = written.table;
        done = rw (pass, map) written.done;
        agrees = written.agrees;
        filled = λ k on. written.filled k (on ∙ sym index);
        kept = written.kept;
      }

  vector_vaddr_bound : (s : Machine) → vector_vaddr s < 2 ^ 32
  vector_vaddr_bound s = ground arith

  map_vectors-IsFilled :
      (lay : Layout) (vaddr : ℕ) (s : Machine)
      → vector_vaddr s ≡ vaddr
      → Agrees want s.section_table
      → IsPlan want lay vaddr
      → IsFilled want (λ k. k ≡ index_of vaddr) (map_vectors lay) 0 s
  unfolding map_vectors
  map_vectors-IsFilled lay vaddr s e agree plan =
      let at =
        vectors_at-IsFilled vaddr lay s (omega (arith, e, vector_vaddr_bound s)) plan.offsets
          plan.vector_page agree in
      record {
        table = at.table;
        done = rw e at.done;
        agrees = at.agrees;
        filled = at.filled;
        kept = at.kept;
      }

  map_program-IsFilled :
      (lay : Layout) (vaddr : ℕ) (s : Machine)
      → vector_vaddr s ≡ vaddr
      → Agrees want s.section_table
      → IsPlan want lay vaddr
      → IsFilled want (OnProgram lay vaddr) (map_program fuel lay) 0 s
  unfolding map_program
  map_program-IsFilled lay vaddr s e agree plan =
      let vectors = region s agree plan.vectors in
      let text = region (record s { section_table = vectors.table }) vectors.agrees plan.text in
      let program_data =
        region (record s { section_table = text.table }) text.agrees plan.program_data in
      let device =
        map_devices-IsFilled lay.devices (record s { section_table = program_data.table })
          program_data.agrees plan.device in
      let page =
        map_vectors-IsFilled lay vaddr (record s { section_table = device.table }) e device.agrees
          plan in
      let relocated = region (record s { section_table = page.table }) page.agrees plan.relocated in
      IsFilled-then vectors (
        IsFilled-then text
          (IsFilled-then program_data (IsFilled-then device (IsFilled-then page relocated))))

-- Both probes return, and leave the control register.
record IsProbed (s : Machine) : Type 0 where
  after : Machine
  done : (mem_check_is_tlb_unified >> mem_check_is_cache_unified) s ≡ returns tt after
  control_same : after.control ≡ s.control

cache-IsProbed :
    (s : Machine)
    → (after : Machine) × (mem_check_is_cache_unified s ≡ returns tt after)
      × (after.control ≡ s.control)
unfolding mem_check_is_cache_unified
cache-IsProbed s = elim (Bool-cases (leb (mem_get_arm_arch_version s) 4)) [
  | inl e ↦ rw (e) (_, refl, refl)
  | inr e ↦ elim (Bool-cases (leb (mem_get_arm_arch_version s) 6)) [
    | inl e' ↦ rw (e, e') (_, refl, refl)
    | inr e' ↦ elim (Bool-cases (mem_get_arm_arch_version s == 7)) [
      | inl e'' ↦ rw (e, e', e'') (_, refl, refl)
      | inr e'' ↦ rw (e, e', e'') (_, refl, refl)
    ]
  ]
]

probes-IsProbed : (s : Machine) → IsProbed s
unfolding mem_check_is_tlb_unified
probes-IsProbed s =
    let probed = cache-IsProbed _ in
    record { after = probed.0; done = probed.1; control_same = probed.2 }

-- What `mem_init` did.
pub record IsReady (want : ℕ → ℕ) (fuel : ℕ) (lay : Layout) (s : Machine) : Type 0 where
  pub after : Machine
  pub done : mem_init fuel lay s ≡ returns tt after
  pub filled : (k : ℕ) → OnProgram lay (vector_vaddr s) k → after.section_table k ≡ want k
  pub agrees : Agrees want after.section_table
  pub inited : after.mem_inited ≡ true
  pub base_set : after.ttbr ≡ true
  pub domains : after.dacr ≡ 0xffffffff

-- Where no two of the mappings of the layout differ and no region reaches the last section,
-- `mem_init` returns with fuel 4096: the sections of the vectors, the text, the data, the devices
-- and the relocated vectors have the descriptors that are wanted, no section has another one, the
-- translation base and the domains are set, and the flag is.
pub mem_init-IsReady :
    (want : ℕ → ℕ) (fuel : ℕ) (lay : Layout) (s : Machine)
    → 4096 ≤ fuel
    → IsPlan want lay (vector_vaddr s)
    → IsReady want fuel lay s
unfolding mem_init mem_check_is_tlb_unified
mem_init-IsReady want fuel lay s enough plan =
    let probed = probes-IsProbed s in
    let same : vector_vaddr (clear_table probed.after) ≡ vector_vaddr s =
      rw probed.control_same refl in
    let program =
      map_program-IsFilled want fuel enough lay (vector_vaddr s) (clear_table probed.after) same
        (λ k. inl refl) plan in
    record {
      after = finish_init (record (clear_table probed.after) { section_table = program.table });
      done = rw (probed.done, program.done) refl;
      filled = program.filled;
      agrees = program.agrees;
      inited = refl;
      base_set = refl;
      domains = refl;
    }
