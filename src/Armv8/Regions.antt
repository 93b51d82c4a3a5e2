-- ===== src/Armv8/Regions.antt =====
-- The regions of arch/armv8/mem.c: the program's text and data, and the devices.
use simbench.Base.{
  ℕ, suc, ◌+◌, ◌-◌, ◌*◌, ◌/◌, ◌^◌, ◌≤◌, ◌<◌, ◌≡◌, ◌⊎◌, inl, inr, refl, ap, ◌∙◌, arith, some, List,
  [], ◌∷◌, bit_and, bit_and_field,
}
use simbench.Base.Outcome.{returns}
use simbench.Armv8.State.{Core, M}
use simbench.Armv8.Table.{
  page_mask, page_descriptor, device_descriptor, insert_mapping, insert_mapping_device,
  mem_create_page_mapping_data, mem_create_page_mapping_code, mem_create_page_mapping_device,
}
use simbench.Armv8.Memory.{
  mem_create_region_id_mapping_data, mem_create_region_id_mapping_code,
  mem_create_region_device_mapping, map_from, map_devices,
}
use simbench.Armv8.Leaf.{page_descriptor-sum, device_descriptor-sum}
use simbench.Armv8.Tree.{Roles}
use simbench.Armv8.Walk.{walk}
use simbench.Armv8.Levels.{leaf_table-Found}
use simbench.Armv8.Translate.{put_leaf-IsMapped}
use simbench.Armv8.Range.{IsRooted, MapsPages, map_from-IsRangeMapped}

data-MapsPages : MapsPages mem_create_page_mapping_data (λ a. page_descriptor a 1)
unfolding mem_create_page_mapping_data insert_mapping
data-MapsPages = record {
  maps = λ root role s va r room.
      put_leaf-IsMapped va (leaf_table-Found r.tree r.set r.nonzero va room) (page_descriptor va 1)
        (omega (arith, page_descriptor-sum va 1 (inl refl)))
        (omega (arith, page_descriptor-sum va 1 (inl refl)));
}

code-MapsPages : MapsPages mem_create_page_mapping_code (λ a. page_descriptor a 3)
unfolding mem_create_page_mapping_code insert_mapping
code-MapsPages = record {
  maps = λ root role s va r room.
      put_leaf-IsMapped va (leaf_table-Found r.tree r.set r.nonzero va room) (page_descriptor va 3)
        (omega (arith, page_descriptor-sum va 3 (inr refl)))
        (omega (arith, page_descriptor-sum va 3 (inr refl)));
}

device-MapsPages : MapsPages mem_create_page_mapping_device device_descriptor
unfolding mem_create_page_mapping_device insert_mapping_device
device-MapsPages = record {
  maps = λ root role s va r room.
      put_leaf-IsMapped va (leaf_table-Found r.tree r.set r.nonzero va room) (device_descriptor va)
        (omega (arith, device_descriptor-sum va)) (omega (arith, device_descriptor-sum va));
}

-- A region by its first and last address, its number of pages, and the pages in it and outside it.
abbrev pub Region : Type 0
Region = ℕ × ℕ

abbrev pub pages : Region → ℕ
pages (start, last) = suc (last / 4096) - start / 4096

abbrev pub Contains : Region → ℕ → Type 0
Contains (start, last) va = (start / 4096 ≤ va / 4096) × (va / 4096 ≤ last / 4096)

abbrev pub Lacks : Region → ℕ → Type 0
Lacks (start, last) va = (va / 4096 < start / 4096) ⊎ (last / 4096 < va / 4096)

-- The region is not empty and ends a page below 2^48.
abbrev pub IsPlain : Region → Type 0
IsPlain (start, last) = (start ≤ last) × (last + 4096 ≤ 2 ^ 48)

-- A region that was mapped with the descriptors `d`.
pub record IsRegionMapped (m : M ℕ) (root : ℕ) (s : Core) (d : ℕ → ℕ) (r : Region) : Type 0 where
  pub after : Core
  pub role' : Roles
  pub done : m s ≡ returns 0 after
  pub rooted : IsRooted root role' after
  pub translates :
      (va : ℕ) → Contains r va → walk after.memory root va ≡ some (d (va / 4096 * 4096))
  pub others :
      (va e : ℕ)
      → va < 2 ^ 48
      → Lacks r va
      → walk s.memory root va ≡ some e
      → walk after.memory root va ≡ some e
  pub heap_use : after.heap_ptr ≤ s.heap_ptr + pages r * 12288
  pub rest : after ≡ record s { memory = after.memory; heap_ptr = after.heap_ptr }

Lacks-range :
    (start last va : ℕ)
    → start ≤ last
    → Lacks (start, last) va
    → (va < start / 4096 * 4096)
      ⊎ (start / 4096 * 4096 + (suc (last / 4096) - start / 4096) * 4096 ≤ va)
Lacks-range start last va h (inl low) = inl (omega arith)
Lacks-range start last va h (inr high) = inr (omega arith)

region :
    (map_page : ℕ → ℕ → M ℕ) (d : ℕ → ℕ) (maps : MapsPages map_page d) (fuel : ℕ) (r : Region)
    (root : ℕ) (role : Roles) (s : Core)
    → IsRooted root role s
    → IsPlain r
    → pages r < fuel
    → s.heap_ptr + pages r * 12288 ≤ s.layout.heap_end
    → IsRegionMapped (map_from map_page fuel (bit_and (r.0) page_mask) (r.1)) root s d r
region map_page d maps fuel (start, last) root role s rooted (ordered, small) enough room =
    let masked : bit_and start page_mask ≡ start / 4096 * 4096 =
      bit_and_field 12 52 start ∙ omega arith in
    let n = suc (last / 4096) - start / 4096 in
    let x =
      map_from-IsRangeMapped map_page d maps n fuel (start / 4096 * 4096) last root role s rooted
        (omega arith) (omega arith) (omega arith) small enough room in
    record {
      after = x.after;
      role' = x.role';
      done = ap (λ i. map_from map_page fuel i last s) masked ∙ x.done;
      rooted = x.rooted;
      translates = λ va (low, high). x.translates va (omega arith) (omega arith);
      others =
          λ va e bound lacks h. x.others va e bound (Lacks-range start last va ordered lacks) h;
      heap_use = x.heap_use;
      rest = x.rest;
    }

module _ (fuel : ℕ) (r : Region) (root : ℕ) (role : Roles) (s : Core)
    (rooted : IsRooted root role s) (plain : IsPlain r) (enough : pages r < fuel)
    (room : s.heap_ptr + pages r * 12288 ≤ s.layout.heap_end) where
  pub data-IsRegionMapped :
      IsRegionMapped
        (mem_create_region_id_mapping_data fuel r.0 r.1)
        root
        s
        (λ a. page_descriptor a 1)
        r
  unfolding mem_create_region_id_mapping_data
  data-IsRegionMapped =
      region mem_create_page_mapping_data (λ a. page_descriptor a 1) data-MapsPages fuel r root role
        s rooted plain enough room

  pub code-IsRegionMapped :
      IsRegionMapped
        (mem_create_region_id_mapping_code fuel r.0 r.1)
        root
        s
        (λ a. page_descriptor a 3)
        r
  unfolding mem_create_region_id_mapping_code
  code-IsRegionMapped =
      region mem_create_page_mapping_code (λ a. page_descriptor a 3) code-MapsPages fuel r root role
        s rooted plain enough room

  pub device-IsRegionMapped :
      IsRegionMapped (mem_create_region_device_mapping fuel r.0 r.1) root s device_descriptor r
  unfolding mem_create_region_device_mapping
  device-IsRegionMapped =
      region mem_create_page_mapping_device device_descriptor device-MapsPages fuel r root role s
        rooted plain enough room

-- A list of devices: the pages in one of them and in none, their total, and that no two share a page.
abbrev pub AnyContains : List Region → ℕ → Type 0
AnyContains [] va = ⊥
AnyContains (r ∷ rs) va = Contains r va ⊎ AnyContains rs va

abbrev pub AllLack : List Region → ℕ → Type 0
AllLack [] va = Unit {0}
AllLack (r ∷ rs) va = Lacks r va × AllLack rs va

abbrev pub all_pages : List Region → ℕ
all_pages [] = 0
all_pages (r ∷ rs) = pages r + all_pages rs

abbrev pub AreApart : List Region → Type 0
AreApart [] = Unit {0}
AreApart (r ∷ rs) = IsPlain r × ((va : ℕ) → Contains r va → AllLack rs va) × AreApart rs

-- All devices were mapped.
pub record AreMapped (fuel : ℕ) (devices : List Region) (root : ℕ) (s : Core) : Type 0 where
  pub after : Core
  pub role' : Roles
  pub done : map_devices fuel devices s ≡ returns tt after
  pub rooted : IsRooted root role' after
  pub translates :
      (va : ℕ)
      → AnyContains devices va
      → walk after.memory root va ≡ some (device_descriptor (va / 4096 * 4096))
  pub others :
      (va e : ℕ)
      → va < 2 ^ 48
      → AllLack devices va
      → walk s.memory root va ≡ some e
      → walk after.memory root va ≡ some e
  pub heap_use : after.heap_ptr ≤ s.heap_ptr + all_pages devices * 12288
  pub rest : after ≡ record s { memory = after.memory; heap_ptr = after.heap_ptr }

map_devices-step :
    (fuel : ℕ) (start last : ℕ) (devices : List Region) (s t : Core)
    → mem_create_region_device_mapping fuel start last s ≡ returns 0 t
    → map_devices fuel ((start, last) ∷ devices) s ≡ map_devices fuel devices t
unfolding map_devices
map_devices-step fuel start last devices s t e = rw e refl

map_devices-none : (fuel : ℕ) (s : Core) → map_devices fuel [] s ≡ returns tt s
unfolding map_devices
map_devices-none fuel s = refl

pub map_devices-AreMapped :
    (fuel : ℕ) (devices : List Region) (root : ℕ) (role : Roles) (s : Core)
    → IsRooted root role s
    → AreApart devices
    → all_pages devices < fuel
    → s.heap_ptr + all_pages devices * 12288 ≤ s.layout.heap_end
    → AreMapped fuel devices root s
map_devices-AreMapped fuel [] root role s rooted apart enough room = record {
  after = s;
  role' = role;
  done = map_devices-none fuel s;
  rooted = rooted;
  translates = λ va in_none. absurd in_none;
  others = λ va e bound lacks h. h;
  heap_use = omega arith;
  rest = refl;
}
map_devices-AreMapped fuel ((start, last) ∷ devices) root role s rooted (plain, clear, apart) enough
      room =
    let first =
      device-IsRegionMapped fuel (start, last) root role s rooted plain (omega arith)
        (omega arith) in
    let later =
      map_devices-AreMapped fuel devices root first.role' first.after first.rooted apart
        (omega arith) (omega (arith, first.heap_use, ap (λ c. c.layout.heap_end) first.rest)) in
    let with_memory =
      λ (c : Core). record c { memory = later.after.memory; heap_ptr = later.after.heap_ptr } in
    record {
      after = later.after;
      role' = later.role';
      done = map_devices-step fuel start last devices s first.after first.done ∙ later.done;
      rooted = later.rooted;
      translates = λ va found. elim found [
        | inl here ↦ later.others va _ (omega arith) (clear va here) (first.translates va here)
        | inr there ↦ later.translates va there
      ];
      others = λ va e bound (lacks, all_lack) h.
          later.others va e bound all_lack (first.others va e bound lacks h);
      heap_use = omega (arith, first.heap_use, later.heap_use);
      rest = later.rest ∙ ap with_memory first.rest;
    }
