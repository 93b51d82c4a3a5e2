-- ===== src/Benchmarks/Tlb.antt =====
-- benchmarks/memory/tlb-evict.c on the ARM port: its set-up and its kernel.
use simbench.Base.{
  ℕ, zero, suc, ◌+◌, ◌-◌, ◌*◌, ◌/◌, ◌%◌, ◌^◌, ◌≤◌, ◌<◌, leb, Bool-cases, true, false, ◌≡◌, inl, inr,
  refl, sym, ap, ◌∙◌, arith, List, [], ◌∷◌, some,
}
use mathlib.Core.Path.{subst}
use native.Mathlib.Decide.{dec_le}
use simbench.Section.Machine.{Machine, prefetch_flush, tlb_flush_all}
use simbench.Section.Map.{Layout, data_descriptor, vector_vaddr}
use simbench.Section.Cache.{mem_tlb_flush, mem_tlb_evict}
use simbench.Section.Descriptor.{translate, read_section, data_descriptor-eq}
use simbench.Section.Init.{IsPlan, mem_init-IsReady}
use simbench.Section.Maintenance.{mem_mmu_enable-IsWritten}
use simbench.Benchmarks.Port.{
  Port, Run, Outcome, returns, Event, spinner_start, spinner, read8, write32,
}
use simbench.Benchmarks.Memory.{next_pointer, tlb_mmu_init, evict_loop, evict_kernel}
use simbench.Benchmarks.Arm.{arm, map_physical-IsCovered}

-- Each access is to an address that the table translates to itself, cached.
abbrev pub AreMapped : (ℕ → ℕ) → List Event → Type 0
AreMapped table [] = Unit {0}
AreMapped table (spinner_start n ∷ rest) = AreMapped table rest
AreMapped table (spinner ∷ rest) = AreMapped table rest
AreMapped table (read8 a ∷ rest) = (translate table a ≡ some (a, 1)) × AreMapped table rest
AreMapped table (write32 a v ∷ rest) = (translate table a ≡ some (a, 1)) × AreMapped table rest

abbrev pub writes : List Event → ℕ
writes [] = 0
writes (spinner_start n ∷ rest) = writes rest
writes (spinner ∷ rest) = writes rest
writes (read8 a ∷ rest) = writes rest
writes (write32 a v ∷ rest) = suc (writes rest)

data_section :
    (k : ℕ)
    → k < 2 ^ 12
    → read_section (data_descriptor (k * 2 ^ 20)) (k * 2 ^ 20) ≡ some (k * 2 ^ 20, 1)
data_section k small =
    let word : data_descriptor (k * 2 ^ 20) ≡ k * 2 ^ 20 + 0xc0e =
      omega (arith, data_descriptor-eq (k * 2 ^ 20)) in
    let valid : (k * 2 ^ 20 + 0xc0e) % 4 ≡ 2 = omega arith in
    let same : (k * 2 ^ 20 + 0xc0e) / 2 ^ 20 * 2 ^ 20 + k * 2 ^ 20 % 2 ^ 20 ≡ k * 2 ^ 20 =
      omega arith in
    let cached : (k * 2 ^ 20 + 0xc0e) / 8 % 2 ≡ 1 = omega arith in
    rw (word, valid, same, cached) refl

-- An eviction leaves the table.
record IsSame (m : Machine) (o : Outcome Machine (Unit {0})) : Type 0 where
  after : Machine
  done : o ≡ returns tt after
  table_same : after.section_table ≡ m.section_table

mem_tlb_evict-IsSame : (ptr : ℕ) (m : Machine) → IsSame m (mem_tlb_evict ptr m)
unfolding mem_tlb_evict
mem_tlb_evict-IsSame ptr m = elim (Bool-cases m.mem_tlb_unified) [
  | inl e ↦ rw e (record { after = _; done = refl; table_same = refl })
  | inr e ↦ rw e (record { after = _; done = refl; table_same = refl })
]

-- The kernel's loop over sections that have their descriptors.
record IsSpun (table : ℕ → ℕ) (n : ℕ) (s : Run Machine) (o : Outcome (Run Machine) (Unit {0}))
    : Type 0 where
  after : Run Machine
  done : o ≡ returns tt after
  mapped : AreMapped table after.events
  count : writes after.events ≡ n + writes s.events

module _ (operand : ℕ → ℕ) (fuel : ℕ) (lay : Layout) (table : ℕ → ℕ) (lo last : ℕ)
    (bound : last ≤ 0xfff)
    (filled : (k : ℕ) → lo ≤ k → k < last → table k ≡ data_descriptor (k * 2 ^ 20)) where
  -- One round.
  evict_loop-suc :
      (n ptr : ℕ) (s : Run Machine)
      → evict_loop (arm operand fuel lay) (suc n) ptr (lo * 2 ^ 20) (last * 2 ^ 20) s
        ≡ evict_loop
            (arm operand fuel lay)
            n
            (next_pointer 32 (2 ^ 20) (lo * 2 ^ 20) (last * 2 ^ 20) ptr)
            (lo * 2 ^ 20)
            (last * 2 ^ 20)
            (record s {
              machine = (mem_tlb_evict-IsSame ptr s.machine).after;
              events = write32 ptr 0x12345678 ∷ (spinner ∷ s.events);
            })
  unfolding evict_loop
  evict_loop-suc n ptr s = rw ((mem_tlb_evict-IsSame ptr s.machine).done) refl

  evict_loop-IsSpun :
      (n j : ℕ) (s : Run Machine)
      → lo ≤ j
      → j < last
      → AreMapped table s.events
      → IsSpun table n s
          (evict_loop (arm operand fuel lay) n (j * 2 ^ 20) (lo * 2 ^ 20) (last * 2 ^ 20) s)
  unfolding evict_loop
  evict_loop-IsSpun zero j s low high mapped = record {
    after = s;
    done = refl;
    mapped = mapped;
    count = omega arith;
  }
  evict_loop-IsSpun (suc n) j s low high mapped =
      let evicted = mem_tlb_evict-IsSame (j * 2 ^ 20) s.machine in
      let again = λ (t : Run Machine) (p : ℕ).
        evict_loop (arm operand fuel lay) n p (lo * 2 ^ 20) (last * 2 ^ 20) t in
      let section : table (j * 2 ^ 20 / 2 ^ 20) ≡ data_descriptor (j * 2 ^ 20) =
        ap table (omega arith) ∙ filled j low high in
      let here : translate table (j * 2 ^ 20) ≡ some (j * 2 ^ 20, 1) =
        ap (λ w. read_section w (j * 2 ^ 20)) section ∙ data_section j (omega arith) in
      let t : Run Machine = record s {
        machine = evicted.after;
        events = write32 (j * 2 ^ 20) 0x12345678 ∷ (spinner ∷ s.events);
      } in
      let step : (j * 2 ^ 20 + 2 ^ 20) % 2 ^ 32 ≡ suc j * 2 ^ 20 = omega arith in
      elim (dec_le last (suc j)) [
        | yes wraps ↦
            let at_end : leb (last * 2 ^ 20) (suc j * 2 ^ 20) ≡ true = ground arith in
            let back : next_pointer 32 (2 ^ 20) (lo * 2 ^ 20) (last * 2 ^ 20) (j * 2 ^ 20)
                ≡ lo * 2 ^ 20 =
              rw (step, at_end) refl in
            let rest = evict_loop-IsSpun n lo t (omega arith) (omega arith) (here, mapped) in
            record {
              after = rest.after;
              done = evict_loop-suc n (j * 2 ^ 20) s ∙ (ap (again t) back ∙ rest.done);
              mapped = rest.mapped;
              count = omega (arith, rest.count);
            }
        | no on ↦
            let inside : leb (last * 2 ^ 20) (suc j * 2 ^ 20) ≡ false = ground arith in
            let ahead : next_pointer 32 (2 ^ 20) (lo * 2 ^ 20) (last * 2 ^ 20) (j * 2 ^ 20)
                ≡ suc j * 2 ^ 20 =
              rw (step, inside) refl in
            let rest =
              evict_loop-IsSpun n (suc j) t (omega arith) (omega (arith, on)) (here, mapped) in
            record {
              after = rest.after;
              done = evict_loop-suc n (j * 2 ^ 20) s ∙ (ap (again t) ahead ∙ rest.done);
              mapped = rest.mapped;
              count = omega (arith, rest.count);
            }
      ]

-- What the set-up left, and what the kernel then did.
pub record IsExercised (port : Port Machine) (fuel first region_end iterations n : ℕ)
    (s : Run Machine) : Type 0 where
  pub started : Run Machine
  pub prepared : tlb_mmu_init port fuel first region_end s ≡ returns tt started
  pub covers : region_end ≤ started.virt_end
  pub after : Run Machine
  pub done : evict_kernel port iterations n started ≡ returns tt after
  pub mapped : AreMapped started.machine.section_table after.events
  pub count : writes after.events ≡ n

-- The set-up.
record IsStarted (want : ℕ → ℕ) (port : Port Machine) (pages lo region_end : ℕ) (s : Run Machine)
    : Type 0 where
  started : Run Machine
  last : ℕ
  prepared : tlb_mmu_init port pages (lo * 2 ^ 20) region_end s ≡ returns tt started
  from : started.virt_start ≡ lo * 2 ^ 20
  to : started.virt_end ≡ last * 2 ^ 20
  quiet : started.events ≡ s.events
  filled : (k : ℕ) → lo ≤ k → k < last → started.machine.section_table k ≡ want k
  covers : region_end ≤ last * 2 ^ 20
  tight : (k : ℕ) → lo ≤ k → k < last → k * 2 ^ 20 < region_end

module _ (want operand : ℕ → ℕ) (fuel : ℕ) (lay : Layout) (pages lo region_end : ℕ)
    (s : Run Machine) (enough : 4096 ≤ fuel) (plan : IsPlan want lay (vector_vaddr s.machine))
    (bound : region_end ≤ 0xfff00000) (rounds : region_end ≤ (lo + pages) * 2 ^ 20)
    (wanted : (k : ℕ)
      → lo ≤ k
      → k * 2 ^ 20 < region_end
      → data_descriptor (k * 2 ^ 20) ≡ want k) where
  tlb_mmu_init-IsStarted : IsStarted want (arm operand fuel lay) pages lo region_end s
  unfolding tlb_mmu_init mem_tlb_flush
  tlb_mmu_init-IsStarted =
      let ready = mem_init-IsReady want fuel lay s.machine enough plan in
      let s1 : Run Machine = record s { machine = ready.after; virt_start = lo * 2 ^ 20 } in
      let physical =
        map_physical-IsCovered want operand fuel lay pages lo region_end s1 bound rounds
          ready.agrees wanted in
      let enabled =
        mem_mmu_enable-IsWritten operand (record ready.after { section_table = physical.table }) in
      record {
        started = record s1 {
          machine = record enabled.after {
            trace = prefetch_flush ∷ (tlb_flush_all ∷ enabled.after.trace);
          };
          virt_end = physical.last * 2 ^ 20;
        };
        last = physical.last;
        prepared = rw (ready.done, physical.done, enabled.done) refl;
        from = refl;
        to = refl;
        quiet = refl;
        filled =
            λ k low high. ap (λ (t : ℕ → ℕ). t k) enabled.table_same ∙ physical.filled k low high;
        covers = physical.covers;
        tight = physical.tight;
      }

  -- Where the layout has a plan for `mem_init` and the sections of the physical memory want identity
  -- mappings too, with an aligned start below the end, an end below the last section and fuel for all
  -- sections, the set-up of the TLB-Evict benchmark returns on an ARMv7 build; its kernel then makes
  -- exactly as many writes as it is asked for and returns, and each of them is to an address that the
  -- section table translates to itself.
  pub tlb_evict-IsExercised :
      lo * 2 ^ 20 < region_end
      → s.events ≡ []
      → (iterations n : ℕ)
      → IsExercised (arm operand fuel lay) pages (lo * 2 ^ 20) region_end iterations n s
  unfolding evict_kernel
  tlb_evict-IsExercised some_page fresh iterations n =
      let x = tlb_mmu_init-IsStarted in
      let last_bound : x.last ≤ 0xfff = omega (
        arith,
        x.covers,
        bound,
        x.tight (x.last - 1) (omega (arith, x.covers)) (omega (arith, x.covers)),
      ) in
      let quiet : x.started.events ≡ [] = x.quiet ∙ fresh in
      let t : Run Machine = record x.started {
        events = spinner_start iterations ∷ x.started.events;
      } in
      let loop =
        evict_loop-IsSpun operand fuel lay x.started.machine.section_table lo x.last last_bound
          (λ k low high. x.filled k low high ∙ sym (wanted k low (x.tight k low high))) n lo t
          (omega arith) (omega (arith, x.covers))
          (subst (AreMapped x.started.machine.section_table) (sym quiet) tt) in
      let from_to = λ (p e : ℕ). evict_loop (arm operand fuel lay) n p p e t in
      record {
        started = x.started;
        prepared = x.prepared;
        covers = omega (arith, x.covers, x.to);
        after = loop.after;
        done =
            ap (λ (p : ℕ). from_to p x.started.virt_end) x.from
            ∙ (ap (λ (e : ℕ). from_to (lo * 2 ^ 20) e) x.to ∙ loop.done);
        mapped = loop.mapped;
        count = loop.count ∙ (ap (λ (es : List Event). n + writes es) quiet ∙ omega arith);
      }
