-- ===== src/Paging/Tests.antt =====
-- The page tables at a concrete machine: zeroed memory, a root table at 0x1000, a heap behind it.
use simbench.Base.{◌≡◌, refl, false, none, some, arith}
use simbench.Paging.Machine.{Machine, Symbols, unset, heap_alloc_page}
use simbench.Paging.Entry.{
  set_base_address, get_base_address, set_flags, is_present, calculate_indicies,
}
use simbench.Paging.Map.{create_page_mapping, ensure_table, write_leaf}
use simbench.Paging.Tree.{IsTree}
use simbench.Paging.Walk.{walk, next_table, leaf_entry}
use simbench.Paging.Mapping.{IsMapped, create_page_mapping-IsMapped}
use simbench.Paging.Range.{IsRangeMapped, range_budget, map_page_ranges-IsRangeMapped}
use simbench.Paging.Identity.{root_only, IsTree-empty}

abbrev machine : Machine
machine = record {
  memory = λ a. 0;
  heap_base = 0x2000;
  heap_cur = 0x2000;
  heap_end = 0x102000;
  heap_size = 0x100000;
  initial_pagetables = 0;
  runtime_pagetables = 0x1000;
  mem_inited = false;
  page_fault_handler_fn = unset;
  cr3 = 0;
}

machine-IsTree : IsTree 0x1000 (root_only 0x1000) machine
machine-IsTree =
    IsTree-empty 0x1000 machine (omega arith) (omega arith) (omega arith) (omega arith) λ i h. refl

-- A run: the page of 0xb8123 is then translated to the frame of 0x55000.
run_example :
    elim (create_page_mapping 0x1000 0x55000 0xb8000 machine) [
      | none ↦ none
      | some (done, after) ↦ walk after.memory 0x1000 0xb8123
    ]
    ≡ some 0x55007
unfolding create_page_mapping ensure_table write_leaf heap_alloc_page set_base_address
    get_base_address set_flags is_present calculate_indicies walk next_table leaf_entry
run_example = refl

create_page_mapping-IsMapped_example : IsMapped 0x1000 (root_only 0x1000) machine 0x55000 0xb8000
create_page_mapping-IsMapped_example =
    create_page_mapping-IsMapped machine-IsTree (omega arith) 0x55000 0xb8000

map_page_ranges-IsRangeMapped_example :
    IsRangeMapped 0x1000 (root_only 0x1000) machine 0x55000 0x1fe000 4 (range_budget 0x1fe000 4)
map_page_ranges-IsRangeMapped_example =
    map_page_ranges-IsRangeMapped machine 0x55000 0x1fe000 4 machine-IsTree refl (omega arith)
      (omega arith) (omega arith)

abbrev layout : Symbols
layout = record {
  text_start = 0x100000;
  text_end = 0x104000;
  data_start = 0x105000;
  data_end = 0x108000;
  heap_start = 0x2000;
  heap_bytes = 0x100000;
}
