-- ===== src/Armv8/Table.antt =====
-- The translation tables of arch/armv8/txln_table.c.
use simbench.Base.{ℕ, zero, suc, ◌+◌, ◌*◌, ◌/◌, ◌%◌, ◌^◌, ◌==◌, if◌then◌else◌, bit_and, bit_or}
use simbench.Base.Outcome.{◌>>=◌, ◌>>◌, pure, modify}
use simbench.Armv8.State.{M, get, update, load, store, armv8_heap_get_page}

abbrev pub address_mask : ℕ
address_mask = 0xfffffffff000

-- `~0x3ULL`, `~0xfff` in 64 bits.
abbrev pub not_present : ℕ
not_present = 0xfffffffffffffffc

abbrev pub page_mask : ℕ
page_mask = 0xfffffffffffff000

-- The body of `get_l0_table`; zero is a table that is not there yet.
abbrev pub table_or_new : ℕ → M ℕ
table_or_new table =
    if table == 0
    then (do page ← armv8_heap_get_page; modify (λ s. record s { l0_table = page }); pure page)
    else pure table

unfoldable pub get_l0_table : M ℕ
unfolding armv8_heap_get_page
get_l0_table = do table ← get (λ s. s.l0_table); table_or_new table

unfoldable pub get_txln_table : M ℕ
unfolding get_l0_table
get_txln_table = get_l0_table

-- The loop of the `clear_..._table` functions from entry `i` on.
unfoldable pub clear_entries : ℕ → ℕ → ℕ → (ℕ → ℕ) → ℕ → ℕ
clear_entries zero i table memory = memory
clear_entries (suc rounds) i table memory =
    clear_entries rounds (suc i) table
      (update memory (table + 8 * i) (bit_and (memory (table + 8 * i)) not_present))

-- The same loop for each of the four levels, over 512 entries.
unfoldable pub clear_table : ℕ → M (Unit {0})
clear_table table = modify (λ s. record s { memory = clear_entries 512 0 table s.memory })

unfoldable pub clear_txln_table : M (Unit {0})
unfolding get_l0_table clear_table
clear_txln_table = do table ← get_l0_table; clear_table table

-- The table page that an entry which is not present remembers, or a new one.
abbrev pub page_or_new : ℕ → M ℕ
page_or_new page = if page == 0 then armv8_heap_get_page else pure page

-- The branch of the descriptor functions.
unfoldable pub present_or_new : ℕ → ℕ → M ℕ
unfolding armv8_heap_get_page clear_table
present_or_new entry descriptor =
    if bit_and descriptor 3 == 0
    then (do
      table_page ← page_or_new (bit_and descriptor address_mask)
      clear_table table_page
      store entry (bit_or table_page 3)
      pure (bit_or table_page 3))
    else pure descriptor

-- `get_l0_descriptor`, `get_l1_descriptor` and `get_l2_descriptor`, which shift the address by 39,
-- 30 and 21.
unfoldable pub get_descriptor : ℕ → ℕ → ℕ → M ℕ
unfolding present_or_new
get_descriptor shift table virt_addr =
    let entry = table + 8 * bit_and (virt_addr / 2 ^ shift % 2 ^ 32) 511 in
    do descriptor ← load entry; present_or_new entry descriptor

unfoldable pub get_l1_table : ℕ → ℕ → M ℕ
unfolding get_descriptor
get_l1_table table virt_addr = do
  descriptor ← get_descriptor 39 table virt_addr
  pure (bit_and descriptor address_mask)

unfoldable pub get_l2_table : ℕ → ℕ → M ℕ
unfolding get_descriptor
get_l2_table table virt_addr = do
  descriptor ← get_descriptor 30 table virt_addr
  pure (bit_and descriptor address_mask)

unfoldable pub get_l3_table : ℕ → ℕ → M ℕ
unfolding get_descriptor
get_l3_table table virt_addr = do
  descriptor ← get_descriptor 21 table virt_addr
  pure (bit_and descriptor address_mask)

unfoldable pub get_l3_descriptor : ℕ → ℕ → ℕ
get_l3_descriptor table virt_addr = table + 8 * bit_and (virt_addr / 2 ^ 12 % 2 ^ 32) 511

-- The words that `insert_mapping` and `insert_mapping_device` build.
unfoldable pub page_descriptor : ℕ → ℕ → ℕ
page_descriptor phys_addr privs =
    bit_or (bit_or (bit_or (bit_and phys_addr page_mask) 3) (privs * 2 ^ 6)) (2 ^ 10)

unfoldable pub device_descriptor : ℕ → ℕ
device_descriptor phys_addr =
    bit_or (bit_or (bit_or (bit_or (bit_and phys_addr page_mask) 3) (2 ^ 6)) (2 ^ 2)) (2 ^ 10)

unfoldable pub insert_mapping : ℕ → ℕ → ℕ → ℕ → M (Unit {0})
unfolding get_l3_descriptor page_descriptor
insert_mapping l3_table virt_addr phys_addr privs =
    store (get_l3_descriptor l3_table virt_addr) (page_descriptor phys_addr privs)

unfoldable pub insert_mapping_device : ℕ → ℕ → ℕ → M (Unit {0})
unfolding get_l3_descriptor device_descriptor
insert_mapping_device l3_table virt_addr phys_addr =
    store (get_l3_descriptor l3_table virt_addr) (device_descriptor phys_addr)

-- The four calls in front of the insertion.
unfoldable pub leaf_table : ℕ → M ℕ
unfolding get_l0_table get_l1_table get_l2_table get_l3_table
leaf_table virt_addr = do
  l0_table ← get_l0_table
  l1_table ← get_l1_table l0_table virt_addr
  l2_table ← get_l2_table l1_table virt_addr
  get_l3_table l2_table virt_addr

unfoldable pub mem_create_page_mapping_data : ℕ → ℕ → M ℕ
unfolding leaf_table insert_mapping
mem_create_page_mapping_data phys_addr virt_addr = do
  l3_table ← leaf_table virt_addr
  insert_mapping l3_table virt_addr phys_addr 1
  pure 0

unfoldable pub mem_create_page_mapping_code : ℕ → ℕ → M ℕ
unfolding leaf_table insert_mapping
mem_create_page_mapping_code phys_addr virt_addr = do
  l3_table ← leaf_table virt_addr
  insert_mapping l3_table virt_addr phys_addr 3
  pure 0

unfoldable pub mem_create_page_mapping_device : ℕ → ℕ → M ℕ
unfolding leaf_table insert_mapping_device
mem_create_page_mapping_device phys_addr virt_addr = do
  l3_table ← leaf_table virt_addr
  insert_mapping_device l3_table virt_addr phys_addr
  pure 0
