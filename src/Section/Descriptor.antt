-- ===== src/Section/Descriptor.antt =====
-- Section descriptors as arithmetic, and one mapping of arch/arm/mem.c.
use simbench.Base.{
  ℕ, ◌+◌, ◌*◌, ◌/◌, ◌%◌, ◌^◌, ◌<◌, ◌==◌, not, true, false, if◌then◌else◌, ◌≡◌, ◌≢◌, ◌⊎◌, Bool-cases,
  inl, inr, refl, arith, bit_or, bit_and_mask, bit_and_field, bit_or_field, bit_or-zero, eq→==,
  ne→==, Option, none, some,
}
use simbench.Section.Machine.{Machine, returns, update}
use simbench.Section.Map.{
  descriptor, data_descriptor, device_descriptor, misaligned, section_of, write_section,
  mem_create_page_mapping_data, mem_create_page_mapping_device,
}

-- The section that an address is in.
abbrev pub index_of : ℕ → ℕ
index_of a = a / 2 ^ 20

pub section_of-eq : (a : ℕ) → section_of a ≡ a / 2 ^ 20 % 2 ^ 12 * 2 ^ 20
section_of-eq a = bit_and_field 20 12 a

pub misaligned-eq : (a : ℕ) → misaligned a ≡ not (a % 2 ^ 20 == 0)
misaligned-eq a = ap_not (bit_and_mask 20 a)
  where
    ap_not : {x y : ℕ} → x ≡ y → not (x == 0) ≡ not (y == 0)
    ap_not e = rw e refl

-- The bits below 12 that are set in both kinds stand apart.
descriptor-eq :
    (q c b : ℕ)
    → (c ≡ 8) ⊎ (c ≡ 0)
    → (b ≡ 4) ⊎ (b ≡ 0)
    → bit_or (bit_or (bit_or (bit_or (bit_or (bit_or (q * 2 ^ 20) 0) 0xc00) 0) c) b) 0x2
      ≡ q * 2 ^ 20 + 0xc02 + c + b
descriptor-eq q c b hc hb =
    let access : bit_or (bit_or (bit_or (q * 2 ^ 20) 0) 0xc00) 0 ≡ (q * 2 ^ 10 + 3) * 2 ^ 10 =
      rw (bit_or-zero, bit_or-zero) (omega (arith, bit_or_field 20 q 0xc00 (omega arith))) in
    let cacheable : bit_or ((q * 2 ^ 10 + 3) * 2 ^ 10) c ≡ q * 2 ^ 20 + 0xc00 + c =
      omega (arith, hc, bit_or_field 10 (q * 2 ^ 10 + 3) c (omega (arith, hc))) in
    let eighth : q * 2 ^ 20 + 0xc00 + c ≡ (q * 2 ^ 17 + 0x180 + c / 8) * 2 ^ 3 =
      omega (arith, hc) in
    let bufferable : bit_or (q * 2 ^ 20 + 0xc00 + c) b ≡ q * 2 ^ 20 + 0xc00 + c + b =
      rw eighth
        (omega (arith, bit_or_field 3 (q * 2 ^ 17 + 0x180 + c / 8) b (omega (arith, hb)))) in
    let quarter : q * 2 ^ 20 + 0xc00 + c + b ≡ (q * 2 ^ 18 + 0x300 + c / 4 + b / 4) * 2 ^ 2 =
      omega (arith, hc, hb) in
    rw (access, cacheable, bufferable, quarter)
      (omega (arith, hc, hb, bit_or_field 2 (q * 2 ^ 18 + 0x300 + c / 4 + b / 4) 2 (omega arith)))

pub data_descriptor-eq : (pa : ℕ) → data_descriptor pa ≡ pa / 2 ^ 20 % 2 ^ 12 * 2 ^ 20 + 0xc0e
unfolding descriptor
data_descriptor-eq pa =
    rw (section_of-eq pa)
      (omega (arith, descriptor-eq (pa / 2 ^ 20 % 2 ^ 12) 8 4 (inl refl) (inl refl)))

pub device_descriptor-eq : (pa : ℕ) → device_descriptor pa ≡ pa / 2 ^ 20 % 2 ^ 12 * 2 ^ 20 + 0xc02
unfolding descriptor
device_descriptor-eq pa =
    rw (section_of-eq pa)
      (omega (arith, descriptor-eq (pa / 2 ^ 20 % 2 ^ 12) 0 0 (inr refl) (inr refl)))

-- The walk of the processor where every descriptor is a section: the physical address, and
-- whether the access is cached.
abbrev pub read_section : ℕ → ℕ → Option (ℕ × ℕ)
read_section word va =
    if word % 4 == 2 then some (word / 2 ^ 20 * 2 ^ 20 + va % 2 ^ 20, word / 8 % 2) else none

abbrev pub translate : (ℕ → ℕ) → ℕ → Option (ℕ × ℕ)
translate table va = read_section (table (index_of va)) va

-- A write over nothing or over the same descriptor.
pub write_section-over :
    (word va : ℕ) (s : Machine)
    → (s.section_table (index_of va) ≡ 0) ⊎ (s.section_table (index_of va) ≡ word)
    → write_section word va s
      ≡ returns 0 (record s { section_table = update s.section_table (index_of va) word })
unfolding write_section
write_section-over word va s (inl h) = rw h refl
write_section-over word va s (inr h) =
    let same : (word == word) ≡ true = eq→== word word refl in
    elim (Bool-cases (word == 0)) [ inl e ↦ rw (h, same, e) refl | inr e ↦ rw (h, same, e) refl ]

pub mapping_data-eq :
    (pa va : ℕ) (s : Machine)
    → pa % 2 ^ 20 ≡ 0
    → va % 2 ^ 20 ≡ 0
    → mem_create_page_mapping_data pa va s ≡ write_section (data_descriptor pa) va s
unfolding mem_create_page_mapping_data
mapping_data-eq pa va s hp hv = rw (misaligned-eq, misaligned-eq, hp, hv) refl

pub mapping_device-eq :
    (pa va : ℕ) (s : Machine)
    → pa % 2 ^ 20 ≡ 0
    → va % 2 ^ 20 ≡ 0
    → mem_create_page_mapping_device pa va s ≡ write_section (device_descriptor pa) va s
unfolding mem_create_page_mapping_device
mapping_device-eq pa va s hp hv = rw (misaligned-eq, misaligned-eq, hp, hv) refl

-- What a data mapping did: the section at `va` is translated to the one at `pa`, cached, and every
-- other address as before.
pub record IsMapped (pa va : ℕ) (s : Machine) : Type 0 where
  pub after : Machine
  pub done : mem_create_page_mapping_data pa va s ≡ returns 0 after
  pub translates :
      (a : ℕ)
      → index_of a ≡ index_of va
      → translate after.section_table a ≡ some (pa + a % 2 ^ 20, 1)
  pub others :
      (a : ℕ)
      → index_of a ≢ index_of va
      → translate after.section_table a ≡ translate s.section_table a

-- At aligned 32-bit addresses, where the section is free or has the same mapping,
-- `mem_create_page_mapping_data` returns 0; every address of the section at `va` is then translated
-- to the one at `pa` with its offset, cached, and every other address is translated as before.
pub mem_create_page_mapping_data-IsMapped :
    (pa va : ℕ) (s : Machine)
    → pa % 2 ^ 20 ≡ 0
    → va % 2 ^ 20 ≡ 0
    → pa < 2 ^ 32
    → (s.section_table (index_of va) ≡ 0) ⊎ (s.section_table (index_of va) ≡ data_descriptor pa)
    → IsMapped pa va s
mem_create_page_mapping_data-IsMapped pa va s hp hv bound free = record {
  after = record s { section_table = update s.section_table (index_of va) (data_descriptor pa) };
  done = rw (mapping_data-eq pa va s hp hv) (write_section-over (data_descriptor pa) va s free);
  translates = λ a same.
      let at : (index_of a == index_of va) ≡ true = eq→== _ _ same in
      let word : data_descriptor pa ≡ pa + 0xc0e = omega (arith, data_descriptor-eq pa) in
      rw (at, word) (sections a);
  others = λ a apart. let at : (index_of a == index_of va) ≡ false = ne→== _ _ apart in rw at refl;
}
  where
    sections : (a : ℕ) → read_section (pa + 0xc0e) a ≡ some (pa + a % 2 ^ 20, 1)
    sections a =
        let present : ((pa + 0xc0e) % 4 == 2) ≡ true = eq→== _ _ (omega arith) in
        let base : (pa + 0xc0e) / 2 ^ 20 * 2 ^ 20 ≡ pa = omega arith in
        let cached : (pa + 0xc0e) / 8 % 2 ≡ 1 = omega arith in rw (present, base, cached) refl
