-- ===== src/Paging/Init.antt =====
-- `prepare_runtime_pagetables` and `mem_init` of arch/x86_64/mem.c.
use simbench.Base.{ℕ, ◌^◌, ◌<◌, ◌≡◌, some, true, false}
use simbench.Paging.Machine.{Machine, Symbols, default_page_fault_handler}
use simbench.Paging.Map.{prepare_runtime_pagetables, mem_init}
use simbench.Paging.Ensure.{with_page}
use simbench.Paging.Identity.{IsIdMapped, IsRuntimePage, IsRoomy}

-- The tables below `root` map every page of the program to itself.
pub record IsPrepared (sym : Symbols) (root : ℕ) (s : Machine) : Type 0 where
  pub after : Machine
  pub returns : prepare_runtime_pagetables sym s ≡ some (tt, after)
  pub ids : (va : ℕ) → va < 2 ^ 48 → IsRuntimePage sym va → IsIdMapped after root va
  pub runtime_same : after.runtime_pagetables ≡ s.runtime_pagetables

-- What `mem_init` did: a fresh root table that maps every page of the program to itself.
pub record IsInited (sym : Symbols) (s : Machine) : Type 0 where
  pub after : Machine
  pub returns : mem_init sym s ≡ some (tt, after)
  pub root_fresh : after.runtime_pagetables ≡ s.heap_cur
  pub ids :
      (va : ℕ) → va < 2 ^ 48 → IsRuntimePage sym va → IsIdMapped after after.runtime_pagetables va

module _ (sym : Symbols) (s : Machine) (r : IsRoomy sym s) (fresh : s.mem_inited ≡ false) where
  -- The state before the ranges are mapped.
  abbrev started : Machine
  started =
      record (with_page
        (record s { mem_inited = true; page_fault_handler_fn = default_page_fault_handler })) {
          runtime_pagetables = s.heap_cur;
        }
