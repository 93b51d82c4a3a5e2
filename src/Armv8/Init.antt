-- ===== src/Armv8/Init.antt =====
-- `syscall_mem_init` of arch/armv8/mem.c, from the clearing of the level 0 table on.
use simbench.Base.{ℕ, ◌+◌, ◌*◌, ◌/◌, ◌≤◌, ◌<◌, ◌≡◌, refl, ap, ◌∙◌, arith, some}
use simbench.Base.Outcome.{returns}
use simbench.Armv8.State.{Core, Layout, M}
use simbench.Armv8.Table.{page_descriptor, device_descriptor}
use simbench.Armv8.Memory.{
  mem_create_region_id_mapping_code, mem_create_region_id_mapping_data, map_simbench,
}
use simbench.Armv8.Tree.{Roles}
use simbench.Armv8.Walk.{walk}
use simbench.Armv8.Range.{IsRooted}
use simbench.Armv8.Regions.{
  Region, IsRegionMapped, AreMapped, pages, all_pages, Contains, Lacks, AnyContains, AllLack,
  IsPlain, AreApart, data-IsRegionMapped, code-IsRegionMapped, map_devices-AreMapped,
}

abbrev pub text_of : Layout → Region
text_of layout = (layout.text_start, layout.text_end)

abbrev pub data_of : Layout → Region
data_of layout = (layout.data_start, layout.data_end)

abbrev pub total_pages : Layout → ℕ
total_pages layout = pages (text_of layout) + pages (data_of layout) + all_pages layout.devices

-- No two regions share a page, and all are plain.
pub record IsLaidOut (layout : Layout) : Type 0 where
  pub text_plain : IsPlain (text_of layout)
  pub data_plain : IsPlain (data_of layout)
  pub text_data : (va : ℕ) → Contains (text_of layout) va → Lacks (data_of layout) va
  pub text_devices : (va : ℕ) → Contains (text_of layout) va → AllLack layout.devices va
  pub data_devices : (va : ℕ) → Contains (data_of layout) va → AllLack layout.devices va
  pub devices_apart : AreApart layout.devices

-- The program's memory is mapped to itself: text readable, data writable, devices as devices.
pub record IsIdentity (root : ℕ) (memory : ℕ → ℕ) (layout : Layout) : Type 0 where
  pub text :
      (va : ℕ)
      → Contains (text_of layout) va
      → walk memory root va ≡ some (page_descriptor (va / 4096 * 4096) 3)
  pub code_data :
      (va : ℕ)
      → Contains (data_of layout) va
      → walk memory root va ≡ some (page_descriptor (va / 4096 * 4096) 1)
  pub device :
      (va : ℕ)
      → AnyContains layout.devices va
      → walk memory root va ≡ some (device_descriptor (va / 4096 * 4096))

-- What a run of the mappings left.
pub record IsSetUp (m : M ℕ) (root : ℕ) (s : Core) : Type 0 where
  pub after : Core
  pub role' : Roles
  pub done : m s ≡ returns 0 after
  pub rooted : IsRooted root role' after
  pub identity : IsIdentity root after.memory s.layout
  pub heap_use : after.heap_ptr ≤ s.heap_ptr + total_pages s.layout * 12288
  pub rest : after ≡ record s { memory = after.memory; heap_ptr = after.heap_ptr }

abbrev code : ℕ → ℕ
code a = page_descriptor a 3

abbrev writable : ℕ → ℕ
writable a = page_descriptor a 1

-- The three steps together.
module _ (fuel root : ℕ) (s : Core) (l : IsLaidOut s.layout)
    (text : IsRegionMapped
      (mem_create_region_id_mapping_code fuel s.layout.text_start s.layout.text_end)
      root
      s
      code
      (text_of s.layout))
    (program : IsRegionMapped
      (mem_create_region_id_mapping_data fuel s.layout.data_start s.layout.data_end)
      root
      text.after
      writable
      (data_of s.layout))
    (devices : AreMapped fuel s.layout.devices root program.after) where
  identity : IsIdentity root devices.after.memory s.layout
  identity = record {
    text = λ va found.
        devices.others va (code (va / 4096 * 4096)) (omega arith) (l.text_devices va found) (
          program.others va (code (va / 4096 * 4096)) (omega arith) (l.text_data va found)
            (text.translates va found));
    code_data = λ va found.
        devices.others va (writable (va / 4096 * 4096)) (omega arith) (l.data_devices va found)
          (program.translates va found);
    device = devices.translates;
  }

  in_order : map_simbench fuel s ≡ returns 0 devices.after
  unfolding map_simbench
  in_order = rw (text.done, program.done, devices.done) refl

  abbrev with_memory : Core → Core
  with_memory c = record c { memory = devices.after.memory; heap_ptr = devices.after.heap_ptr }

  IsSetUp-of : IsSetUp (map_simbench fuel) root s
  IsSetUp-of = record {
    after = devices.after;
    role' = devices.role';
    done = in_order;
    rooted = devices.rooted;
    identity = identity;
    heap_use = omega (arith, text.heap_use, program.heap_use, devices.heap_use);
    rest = devices.rest ∙ ap with_memory program.rest ∙ ap with_memory text.rest;
  }

module _ (fuel root : ℕ) (role : Roles) (s : Core) (rooted : IsRooted root role s)
    (l : IsLaidOut s.layout) (enough : total_pages s.layout < fuel)
    (room : s.heap_ptr + total_pages s.layout * 12288 ≤ s.layout.heap_end) where
  -- With a region for each of the program's parts and for each device, none sharing a page, fuel for
  -- all pages and three heap pages for each, the mappings return and leave the identity.
  pub map_simbench-IsSetUp : IsSetUp (map_simbench fuel) root s
  map_simbench-IsSetUp =
      let text =
        code-IsRegionMapped fuel (text_of s.layout) root role s rooted l.text_plain (omega arith)
          (omega arith) in
      let same_end = ap (λ (c : Core). c.layout.heap_end) text.rest in
      let program =
        data-IsRegionMapped fuel (data_of s.layout) root text.role' text.after text.rooted
          l.data_plain (omega arith) (omega (arith, text.heap_use, same_end)) in
      let devices =
        map_devices-AreMapped fuel s.layout.devices root program.role' program.after program.rooted
          l.devices_apart (omega arith)
          (omega (
            arith,
            text.heap_use,
            program.heap_use,
            same_end,
            ap (λ (c : Core). c.layout.heap_end) program.rest,
          )) in
      IsSetUp-of fuel root s l text program devices
