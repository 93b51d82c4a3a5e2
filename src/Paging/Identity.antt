-- ===== src/Paging/Identity.antt =====
-- Identity mappings in the tables of arch/x86_64/mem.c.
use simbench.Base.{
  ℕ, ◌+◌, ◌-◌, ◌*◌, ◌/◌, ◌%◌, ◌^◌, ◌≤◌, ◌<◌, ◌==◌, ◌≡◌, ◌⊎◌, refl, ◌∙◌, sym, ap, arith, none, some,
  if◌then◌else◌, List, [], eq→==,
}
use native.Mathlib.Decide.{dec_lt, ℕ_discrete}
use simbench.Paging.Bits.{base_of}
use simbench.Paging.Machine.{Machine, Symbols}
use simbench.Paging.Map.{entry_at, rounds, nr_pages, lapic}
use simbench.Paging.Tree.{Roles, IsTree}
use simbench.Paging.Walk.{walk}
use simbench.Paging.Mapping.{page_of, IsMapped}
use simbench.Paging.Range.{IsRangeMapped, range_budget}

-- Only the root is a table.
pub root_only : ℕ → Roles
root_only root q = if q == root then some [] else none

-- A zeroed page is the root of a tree with no other tables.
pub IsTree-empty :
    (root : ℕ) (s : Machine)
    → root % 4096 ≡ 0
    → root + 4096 ≤ s.heap_cur
    → s.heap_cur % 4096 ≡ 0
    → s.heap_end + 4096 ≤ 2 ^ 64
    → ((i : ℕ) → i < 512 → s.memory (entry_at root i) ≡ 0)
    → IsTree root (root_only root) s
unfolding root_only
IsTree-empty root s aligned below heap_aligned heap_bound zeroed = record {
  root_role = rw (eq→== root root refl);
  aligned = λ p w h. rw (is_root p w h) aligned;
  below = λ p w h. rw (is_root p w h) below;
  child = λ p w i h hw hi ne. absurd (ne (ap base_of (at_root p w i h hi)));
  vacant = λ p w i h hw hi z. rw (at_root p w i h hi);
  rights = λ p w i h hw hi odd. absurd (omega (arith, at_root p w i h hi, odd));
  heap_aligned = heap_aligned;
  heap_bound = heap_bound;
}
  where
    is_root : (p : ℕ) (w : List ℕ) → root_only root p ≡ some w → p ≡ root
    is_root p w h = ground arith

    at_root :
        (p : ℕ) (w : List ℕ) (i : ℕ)
        → root_only root p ≡ some w
        → i < 512
        → s.memory (entry_at p i) ≡ 0
    at_root p w i h hi = rw (is_root p w h) (zeroed i hi)

-- The page of `va` is translated to itself, present, writable and open to user mode.
abbrev pub IsIdMapped : Machine → ℕ → ℕ → Type 0
IsIdMapped s root va = walk s.memory root va ≡ some (base_of va + 7)

-- The walk sees only the page of an address.
walk_page :
    (f : ℕ → ℕ) (root va va' : ℕ) → page_of va ≡ page_of va' → walk f root va ≡ walk f root va'
unfolding walk
walk_page f root va va' e =
    let e0 : va / 2 ^ 39 % 512 ≡ va' / 2 ^ 39 % 512 = omega arith in
    let e1 : va / 2 ^ 30 % 512 ≡ va' / 2 ^ 30 % 512 = omega arith in
    let e2 : va / 2 ^ 21 % 512 ≡ va' / 2 ^ 21 % 512 = omega arith in
    let e3 : va / 2 ^ 12 % 512 ≡ va' / 2 ^ 12 % 512 = omega arith in rw (e0, e1, e2, e3)

module _ {root : ℕ} {role : Roles} {s : Machine} {start n budget : ℕ}
    (bound : start + 4096 * n ≤ 2 ^ 48) (m : IsRangeMapped root role s start start n budget) where
  -- A range that is mapped to itself: its pages are, and those that were so before still are.
  pub range_ids :
      (va : ℕ)
      → va < 2 ^ 48
      → start / 4096 ≤ va / 4096
      → va / 4096 < start / 4096 + n
      → IsIdMapped m.after root va
  range_ids va small above below =
      let k = va / 4096 - start / 4096 in
      walk_page m.after.memory root va (start + 4096 * k) (omega arith)
      ∙ m.translates k (omega arith)
      ∙ ap some (omega arith)

  pub range_keeps_ids : (va : ℕ) → va < 2 ^ 48 → IsIdMapped s root va → IsIdMapped m.after root va
  range_keeps_ids va small h = elim (dec_lt (va / 4096) (start / 4096)) [
    | yes under ↦ m.others va _ (λ k hk. omega arith) h
    | no not_under ↦ elim (dec_lt (va / 4096) (start / 4096 + n)) [
      | yes inside ↦ range_ids va small (omega arith) inside
      | no over ↦ m.others va _ (λ k hk. omega arith) h
    ]
  ]

module _ {root : ℕ} {role : Roles} {s : Machine} {page : ℕ} (bound : page < 2 ^ 48)
    (m : IsMapped root role s page page) where
  pub page_ids : (va : ℕ) → va < 2 ^ 48 → va / 4096 ≡ page / 4096 → IsIdMapped m.after root va
  page_ids va small same =
      walk_page m.after.memory root va page (omega arith) ∙ m.translates ∙ ap some (omega arith)

  pub page_keeps_ids : (va : ℕ) → va < 2 ^ 48 → IsIdMapped s root va → IsIdMapped m.after root va
  page_keeps_ids va small h = elim (ℕ_discrete (va / 4096) (page / 4096)) [
    | yes same ↦ page_ids va small same
    | no other ↦ m.others va _ (omega arith) h
  ]

-- The pages that `prepare_runtime_pagetables` maps.
abbrev pub text_rounds : Symbols → ℕ
text_rounds sym = rounds (nr_pages sym.text_start sym.text_end)

abbrev pub data_rounds : Symbols → ℕ
data_rounds sym = rounds (nr_pages sym.data_start sym.data_end)

abbrev pub heap_rounds : Symbols → ℕ
heap_rounds sym = rounds (sym.heap_bytes / 2 ^ 12)

-- `va` lies on one of the `n` pages from that of `start` on.
abbrev pub IsOnPages : ℕ → ℕ → ℕ → Type 0
IsOnPages start n va = (start / 4096 ≤ va / 4096) × (va / 4096 < start / 4096 + n)

-- `va` is on a page of the framebuffer, the text, the data, the heap or the LAPIC.
abbrev pub IsRuntimePage : Symbols → ℕ → Type 0
IsRuntimePage sym va =
    IsOnPages 0xb8000 1 va
    ⊎ IsOnPages sym.text_start (text_rounds sym) va
    ⊎ IsOnPages sym.data_start (data_rounds sym) va
    ⊎ IsOnPages sym.heap_start (heap_rounds sym) va
    ⊎ IsOnPages lapic 1 va

-- The heap pages, in threes, that are enough for all the tables.
abbrev pub init_budget : Symbols → ℕ
init_budget sym =
    range_budget 0xb8000 1
    + range_budget sym.text_start (text_rounds sym)
    + range_budget sym.data_start (data_rounds sym)
    + range_budget sym.heap_start (heap_rounds sym)
    + 2

-- A linker layout and a heap that serve: the sections end below 2^48 and the tables fit.
pub record IsRoomy (sym : Symbols) (s : Machine) : Type 0 where
  pub heap_aligned : s.heap_cur % 4096 ≡ 0
  pub heap_bound : s.heap_end + 4096 ≤ 2 ^ 64
  pub text_bound : sym.text_start + 4096 * text_rounds sym ≤ 2 ^ 48
  pub data_bound : sym.data_start + 4096 * data_rounds sym ≤ 2 ^ 48
  pub heap_end_bound : sym.heap_start + 4096 * heap_rounds sym ≤ 2 ^ 48
  pub room : s.heap_cur + 4096 + 3 * 4096 * init_budget sym ≤ s.heap_end
