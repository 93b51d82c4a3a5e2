-- ===== src/Armv8/Range.antt =====
-- A region of arch/armv8/mem.c, mapped page by page to itself.
use simbench.Base.{
  ℕ, zero, suc, ◌+◌, ◌*◌, ◌/◌, ◌%◌, ◌^◌, ◌≤◌, ◌<◌, ◌≡◌, ◌≢◌, ◌⊎◌, inl, inr, refl, ap, ◌∙◌, arith,
  some, eq_or_ne, lt→ltb, le→ltb,
}
use simbench.Base.Outcome.{returns}
use simbench.Armv8.State.{Core, M}
use simbench.Armv8.Memory.{map_from}
use simbench.Armv8.Tree.{Roles, IsTree}
use simbench.Armv8.Walk.{walk}
use simbench.Armv8.Translate.{IsMapped, page_of}

-- The tables of a core that has its level 0 table.
pub record IsRooted (root : ℕ) (role : Roles) (s : Core) : Type 0 where
  pub tree : IsTree root role s
  pub set : s.l0_table ≡ root
  pub nonzero : root ≢ 0

-- A function that maps a page to itself, by the descriptor that `d` gives for it.
pub record MapsPages (map_page : ℕ → ℕ → M ℕ) (d : ℕ → ℕ) : Type 0 where
  pub maps :
      (root : ℕ) (role : Roles) (s : Core) (va : ℕ)
      → IsRooted root role s
      → s.heap_ptr + 3 * 4096 ≤ s.layout.heap_end
      → IsMapped (map_page va va) root role s va (d va)

-- A mapping of the `n` pages from `i` on, and all other pages as they were.
pub record IsRangeMapped (m : M ℕ) (root : ℕ) (s : Core) (d : ℕ → ℕ) (i n : ℕ) : Type 0 where
  pub after : Core
  pub role' : Roles
  pub done : m s ≡ returns 0 after
  pub rooted : IsRooted root role' after
  pub translates :
      (va : ℕ)
      → i ≤ va
      → va < i + n * 4096
      → walk after.memory root va ≡ some (d (va / 4096 * 4096))
  pub others :
      (va e : ℕ)
      → va < 2 ^ 48
      → (va < i) ⊎ (i + n * 4096 ≤ va)
      → walk s.memory root va ≡ some e
      → walk after.memory root va ≡ some e
  pub heap_use : after.heap_ptr ≤ s.heap_ptr + n * 12288
  pub rest : after ≡ record s { memory = after.memory; heap_ptr = after.heap_ptr }

-- The walk reads the number of the page only.
walk-page : (f : ℕ → ℕ) (root va i : ℕ) → va / 4096 ≡ i / 4096 → walk f root va ≡ walk f root i
unfolding walk
walk-page f root va i e =
    let e0 : va / 2 ^ 39 ≡ i / 2 ^ 39 = omega arith in
    let e1 : va / 2 ^ 30 ≡ i / 2 ^ 30 = omega arith in
    let e2 : va / 2 ^ 21 ≡ i / 2 ^ 21 = omega arith in
    let e3 : va / 2 ^ 12 ≡ i / 2 ^ 12 = omega arith in rw (e0, e1, e2, e3) refl

outside_later :
    (i n va : ℕ) → (va < i) ⊎ (i + suc n * 4096 ≤ va) → (va < i + 4096) ⊎ (i + 4096 + n * 4096 ≤ va)
outside_later i n va (inl h) = inl (omega arith)
outside_later i n va (inr h) = inr (omega arith)

outside_first :
    (i n va : ℕ)
    → i % 4096 ≡ 0
    → i < 2 ^ 48
    → va < 2 ^ 48
    → (va < i) ⊎ (i + suc n * 4096 ≤ va)
    → page_of va ≢ page_of i
outside_first i n va aligned small bound (inl h) e = omega arith
outside_first i n va aligned small bound (inr h) e = omega arith

IsMapped-IsRooted :
    {m : M ℕ} {root : ℕ} {role : Roles} {s : Core} {va d : ℕ}
    → IsRooted root role s
    → (x : IsMapped m root role s va d) → IsRooted root x.role' x.after
IsMapped-IsRooted r x = record {
  tree = x.tree;
  set = ap (λ c. c.l0_table) x.rest ∙ r.set;
  nonzero = r.nonzero;
}

module _ (map_page : ℕ → ℕ → M ℕ) (d : ℕ → ℕ) (maps : MapsPages map_page d) where
  map_from-end :
      (fuel i region_end : ℕ) (s : Core)
      → region_end < i
      → map_from map_page (suc fuel) i region_end s ≡ returns 0 s
  unfolding map_from
  map_from-end fuel i region_end s h = rw (lt→ltb region_end i h) refl

  map_from-step :
      (fuel i region_end : ℕ) (s t : Core)
      → i ≤ region_end
      → map_page i i s ≡ returns 0 t
      → map_from map_page (suc fuel) i region_end s
        ≡ map_from map_page fuel ((i + 4096) % 2 ^ 64) region_end t
  unfolding map_from
  map_from-step fuel i region_end s t h e = rw (le→ltb region_end i h, e) refl

  -- With fuel for each page and one round more, three heap pages for each, and no page past 48 bits,
  -- the loop returns and maps each page.
  pub map_from-IsRangeMapped :
      (n fuel i region_end root : ℕ) (role : Roles) (s : Core)
      → IsRooted root role s
      → i % 4096 ≡ 0
      → region_end < i + n * 4096
      → i + n * 4096 ≤ region_end + 4096
      → region_end + 4096 ≤ 2 ^ 48
      → n < fuel
      → s.heap_ptr + n * 12288 ≤ s.layout.heap_end
      → IsRangeMapped (map_from map_page fuel i region_end) root s d i n
  map_from-IsRangeMapped n zero i region_end root role s r aligned low high small enough room =
      absurd (omega arith)
  map_from-IsRangeMapped zero (suc fuel) i region_end root role s r aligned low high small enough
        room =
      record {
        after = s;
        role' = role;
        done = map_from-end fuel i region_end s (omega arith);
        rooted = r;
        translates = λ va va_low va_high. absurd (omega arith);
        others = λ va e bound outside h. h;
        heap_use = omega arith;
        rest = refl;
      }
  map_from-IsRangeMapped (suc n) (suc fuel) i region_end root role s r aligned low high small enough
        room =
      let first = maps.maps root role s i r (omega arith) in
      let next : (i + 4096) % 2 ^ 64 ≡ i + 4096 = omega arith in
      let later =
        map_from-IsRangeMapped n fuel (i + 4096) region_end root first.role' first.after
          (IsMapped-IsRooted r first) (omega arith) (omega arith) (omega arith) small (omega arith)
          (omega (arith, first.heap_use, ap (λ c. c.layout.heap_end) first.rest)) in
      let with_memory =
        λ (c : Core). record c { memory = later.after.memory; heap_ptr = later.after.heap_ptr } in
      record {
        after = later.after;
        role' = later.role';
        done =
            map_from-step fuel i region_end s first.after (omega arith) first.done
            ∙ ap (λ j. map_from map_page fuel j region_end first.after) next
            ∙ later.done;
        rooted = later.rooted;
        translates = λ va va_low va_high. elim (eq_or_ne (va / 4096) (i / 4096)) [
          | inl here ↦
              let page : va / 4096 * 4096 ≡ i = omega arith in
              rw page (
                walk-page later.after.memory root va i here
                ∙ later.others i (d i) (omega arith) (inl (omega arith)) first.translates)
          | inr above ↦ later.translates va (omega arith) (omega arith)
        ];
        others = λ va e bound outside h.
            later.others va e bound (outside_later i n va outside)
              (first.others va e (outside_first i n va aligned (omega arith) bound outside) h);
        heap_use = omega (arith, first.heap_use, later.heap_use);
        rest = later.rest ∙ ap with_memory first.rest;
      }
