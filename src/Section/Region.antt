-- ===== src/Section/Region.antt =====
-- `mem_create_region_id_mapping` and `mem_create_region_device_mapping` of arch/arm/mem.c.
use simbench.Base.{
  ℕ, zero, suc, ◌+◌, ◌*◌, ◌/◌, ◌%◌, ◌^◌, ◌≤◌, ◌<◌, ◌==◌, leb, not, ◌&&◌, true, false, ◌≡◌, ◌⊎◌, inl,
  inr, refl, sym, ap, ◌∙◌, arith, eq→==, eq_or_ne, ne→==, Bool-cases,
}
use native.Mathlib.Decide.{dec_le}
use simbench.Section.Machine.{Machine, M, returns, aborts, unfinished, Outcome, ◌>>◌, update}
use simbench.Section.Map.{
  data_descriptor, device_descriptor, section_of, write_section, map_region,
  mem_create_page_mapping_data, mem_create_page_mapping_device, mem_create_region_id_mapping,
  mem_create_region_device_mapping,
}
use simbench.Section.Descriptor.{
  index_of, section_of-eq, write_section-over, mapping_data-eq, mapping_device-eq,
}

-- No section has a descriptor other than the one that is wanted for it.
abbrev pub Agrees : (ℕ → ℕ) → (ℕ → ℕ) → Type 0
Agrees want table = (k : ℕ) → (table k ≡ 0) ⊎ (table k ≡ want k)

-- What a step of the initialisation did to a table that agrees with `want`: the sections with `On`
-- have what is wanted, no section lost it, and only the table changed.
pub record IsFilled (want : ℕ → ℕ) (On : ℕ → Type 0) {A : Type 0} (m : M A) (a : A) (s : Machine)
    : Type 0 where
  pub table : ℕ → ℕ
  pub done : m s ≡ returns a (record s { section_table = table })
  pub agrees : Agrees want table
  pub filled : (k : ℕ) → On k → table k ≡ want k
  pub kept : (k : ℕ) → s.section_table k ≡ want k → table k ≡ want k

-- One step after the other.
pub IsFilled-then :
    {want : ℕ → ℕ} {On On' : ℕ → Type 0} {A B : Type 0} {m : M A} {n : M B} {a : A} {b : B}
    {s : Machine} (first : IsFilled want On m a s)
    → IsFilled want On' n b (record s { section_table = first.table })
    → IsFilled want (λ k. On k ⊎ On' k) (m >> n) b s
IsFilled-then first rest = record {
  table = rest.table;
  done = rw first.done rest.done;
  agrees = rest.agrees;
  filled = λ k on. elim on [
    | inl there ↦ rest.kept k (first.filled k there)
    | inr here ↦ rest.filled k here
  ];
  kept = λ k h. rest.kept k (first.kept k h);
}

-- One section.
pub write-IsFilled :
    (want : ℕ → ℕ) (word va : ℕ) (s : Machine)
    → Agrees want s.section_table
    → word ≡ want (index_of va)
    → IsFilled want (λ k. k ≡ index_of va) (write_section word va) 0 s
write-IsFilled want word va s agree e = record {
  table = update s.section_table (index_of va) word;
  done = write_section-over word va s (over (agree (index_of va)));
  agrees = λ k. elim (eq_or_ne k (index_of va)) [
    | inl same ↦ inr (rw (eq→== _ _ same) (e ∙ ap want (sym same)))
    | inr apart ↦ rw (ne→== _ _ apart) (agree k)
  ];
  filled = λ k same. rw (eq→== _ _ same) (e ∙ ap want (sym same));
  kept = λ k h. elim (eq_or_ne k (index_of va)) [
    | inl same ↦ rw (eq→== _ _ same) (e ∙ ap want (sym same))
    | inr apart ↦ rw (ne→== _ _ apart) h
  ];
}
  where
    over :
        (s.section_table (index_of va) ≡ 0) ⊎ (s.section_table (index_of va) ≡ want (index_of va))
        → (s.section_table (index_of va) ≡ 0) ⊎ (s.section_table (index_of va) ≡ word)
    over (inl h) = inl h
    over (inr h) = inr (h ∙ sym e)

-- The sections from `lo` to that of `region_end`.
abbrev pub Between : ℕ → ℕ → ℕ → Type 0
Between lo region_end k = (lo ≤ k) × (k * 2 ^ 20 ≤ region_end)

-- What never returns, whatever the fuel.
abbrev pub IsEndless : Outcome Machine ℕ → Type 0
IsEndless o = (o ≡ unfinished) ⊎ (o ≡ aborts)

write_section-cases :
    (word va : ℕ) (s : Machine)
    → (write_section word va s ≡ aborts)
      ⊎ ((after : Machine) × (write_section word va s ≡ returns 0 after))
unfolding write_section
write_section-cases word va s =
    elim (Bool-cases
      (not (s.section_table (index_of va) == 0) && not (s.section_table (index_of va) == word))) [
        | inl e ↦ inl (rw e refl)
        | inr e ↦
            inr (record s { section_table = update s.section_table (index_of va) word }, rw e refl)
      ]

module _ (mapping : ℕ → ℕ → M ℕ) (desc : ℕ → ℕ)
    (is_write : (pa va : ℕ) (s : Machine)
      → pa % 2 ^ 20 ≡ 0
      → va % 2 ^ 20 ≡ 0
      → mapping pa va s ≡ write_section (desc pa) va s) where
  map_region-IsFilled :
      (want : ℕ → ℕ) (fuel lo region_end : ℕ) (s : Machine)
      → region_end < 0xfff00000
      → region_end / 2 ^ 20 + 1 ≤ lo + fuel
      → Agrees want s.section_table
      → ((k : ℕ) → Between lo region_end k → desc (k * 2 ^ 20) ≡ want k)
      → IsFilled want (Between lo region_end) (map_region mapping fuel (lo * 2 ^ 20) region_end) 0 s
  unfolding map_region
  map_region-IsFilled want zero lo region_end s bound enough agree wanted =
      let over : leb (lo * 2 ^ 20) region_end ≡ false = ground arith in
      record {
        table = s.section_table;
        done = rw over refl;
        agrees = agree;
        filled = λ k on. absurd (omega (arith, on.0, on.1));
        kept = λ k h. h;
      }
  map_region-IsFilled want (suc fuel) lo region_end s bound enough agree wanted =
      elim (dec_le (lo * 2 ^ 20) region_end) [
        | yes more ↦
            let index : index_of (lo * 2 ^ 20) ≡ lo = omega arith in
            let first =
              write-IsFilled want (desc (lo * 2 ^ 20)) (lo * 2 ^ 20) s agree
                (rw index (wanted lo (omega arith, more))) in
            let rest =
              map_region-IsFilled want fuel (suc lo) region_end
                (record s { section_table = first.table }) bound (omega arith) first.agrees
                λ k on. wanted k (omega (arith, on.0), on.1) in
            let again : leb (lo * 2 ^ 20) region_end ≡ true = ground arith in
            let step : (lo * 2 ^ 20 + 2 ^ 20) % 2 ^ 32 ≡ suc lo * 2 ^ 20 = omega arith in
            let write : mapping (lo * 2 ^ 20) (lo * 2 ^ 20) s
                ≡ returns 0 (record s { section_table = first.table }) =
              is_write (lo * 2 ^ 20) (lo * 2 ^ 20) s (omega arith) (omega arith) ∙ first.done in
            record {
              table = rest.table;
              done = rw (again, write, step) rest.done;
              agrees = rest.agrees;
              filled = λ k on. elim (eq_or_ne k lo) [
                | inl same ↦ rest.kept k (first.filled k (same ∙ sym index))
                | inr apart ↦ rest.filled k (omega (arith, on.0, apart), on.1)
              ];
              kept = λ k h. rest.kept k (first.kept k h);
            }
        | no over ↦
            let past : leb (lo * 2 ^ 20) region_end ≡ false = ground arith in
            record {
              table = s.section_table;
              done = rw past refl;
              agrees = agree;
              filled = λ k on. absurd (omega (arith, on.0, on.1, over));
              kept = λ k h. h;
            }
      ]

  -- The loop does not end where the region reaches the last section: `i` wraps to 0.
  map_region-IsEndless :
      (fuel k region_end : ℕ) (s : Machine)
      → k < 2 ^ 12
      → 0xfff00000 ≤ region_end
      → IsEndless (map_region mapping fuel (k * 2 ^ 20) region_end s)
  unfolding map_region
  map_region-IsEndless zero k region_end s small last =
      let again : leb (k * 2 ^ 20) region_end ≡ true = ground arith in inl (rw again refl)
  map_region-IsEndless (suc fuel) k region_end s small last =
      let again : leb (k * 2 ^ 20) region_end ≡ true = ground arith in
      let write = is_write (k * 2 ^ 20) (k * 2 ^ 20) s (omega arith) (omega arith) in
      let step : (k * 2 ^ 20 + 2 ^ 20) % 2 ^ 32 ≡ (k + 1) % 2 ^ 12 * 2 ^ 20 = omega arith in
      elim (write_section-cases (desc (k * 2 ^ 20)) (k * 2 ^ 20) s) [
        | inl stop ↦ inr (rw (again, write ∙ stop) refl)
        | inr (after, went) ↦
            rw (again, write ∙ went, step)
              (map_region-IsEndless fuel ((k + 1) % 2 ^ 12) region_end after (omega arith) last)
      ]

-- With fuel for each section, a region below the last section and a table whose sections of the
-- region are free or identity mapped already, `mem_create_region_id_mapping` returns 0 with every
-- section of the region identity mapped as data.
pub mem_create_region_id_mapping-IsFilled :
    (want : ℕ → ℕ) (fuel lo hi : ℕ) (s : Machine)
    → lo < 2 ^ 32
    → hi < 0xfff00000
    → hi / 2 ^ 20 + 1 ≤ lo / 2 ^ 20 + fuel
    → Agrees want s.section_table
    → ((k : ℕ) → Between (lo / 2 ^ 20) hi k → data_descriptor (k * 2 ^ 20) ≡ want k)
    → IsFilled want (Between (lo / 2 ^ 20) hi) (mem_create_region_id_mapping fuel lo hi) 0 s
unfolding mem_create_region_id_mapping
mem_create_region_id_mapping-IsFilled want fuel lo hi s small bound enough agree wanted =
    let start : section_of lo ≡ lo / 2 ^ 20 * 2 ^ 20 = omega (arith, section_of-eq lo) in
    rw start (
      map_region-IsFilled mem_create_page_mapping_data data_descriptor mapping_data-eq want fuel
        (lo / 2 ^ 20) hi s bound enough agree wanted)

pub mem_create_region_device_mapping-IsFilled :
    (want : ℕ → ℕ) (fuel lo hi : ℕ) (s : Machine)
    → lo < 2 ^ 32
    → hi < 0xfff00000
    → hi / 2 ^ 20 + 1 ≤ lo / 2 ^ 20 + fuel
    → Agrees want s.section_table
    → ((k : ℕ) → Between (lo / 2 ^ 20) hi k → device_descriptor (k * 2 ^ 20) ≡ want k)
    → IsFilled want (Between (lo / 2 ^ 20) hi) (mem_create_region_device_mapping fuel lo hi) 0 s
unfolding mem_create_region_device_mapping
mem_create_region_device_mapping-IsFilled want fuel lo hi s small bound enough agree wanted =
    let start : section_of lo ≡ lo / 2 ^ 20 * 2 ^ 20 = omega (arith, section_of-eq lo) in
    rw start (
      map_region-IsFilled mem_create_page_mapping_device device_descriptor mapping_device-eq want
        fuel (lo / 2 ^ 20) hi s bound enough agree wanted)

-- A region that reaches the last section is never finished: with any fuel, the loop of
-- `mem_create_region_id_mapping` runs out of it or aborts on the way.
pub mem_create_region_id_mapping-IsEndless :
    (fuel lo hi : ℕ) (s : Machine)
    → lo < 2 ^ 32
    → 0xfff00000 ≤ hi
    → IsEndless (mem_create_region_id_mapping fuel lo hi s)
unfolding mem_create_region_id_mapping
mem_create_region_id_mapping-IsEndless fuel lo hi s small last =
    let start : section_of lo ≡ lo / 2 ^ 20 * 2 ^ 20 = omega (arith, section_of-eq lo) in
    rw start (
      map_region-IsEndless mem_create_page_mapping_data data_descriptor mapping_data-eq fuel
        (lo / 2 ^ 20) hi s (omega arith) last)
