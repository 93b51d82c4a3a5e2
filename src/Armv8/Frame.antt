-- ===== src/Armv8/Frame.antt =====
-- Setting up the memory map on ARMv8 leaves the exception state alone.
use simbench.Base.{
  ℕ, zero, suc, ◌+◌, ◌*◌, ◌/◌, ◌%◌, ◌^◌, ◌==◌, ltb, Bool, true, false, if◌then◌else◌, ◌≡◌, refl,
  ◌∙◌, List, [], ◌∷◌, Option, bit_and, bit_or,
}
use simbench.Base.Outcome.{
  Outcome, returns, aborts, unfinished, and_then, ◌>>=◌, ◌>>◌, pure, modify,
}
use simbench.Armv8.State.{Handler, Layout, Core, M, store, armv8_heap_get_page}
use simbench.Armv8.Table.{
  table_or_new, get_l0_table, get_txln_table, clear_table, clear_txln_table, page_or_new,
  present_or_new, get_descriptor, get_l1_table, get_l2_table, get_l3_table, insert_mapping,
  insert_mapping_device, leaf_table, mem_create_page_mapping_data, mem_create_page_mapping_code,
  mem_create_page_mapping_device, address_mask,
}
use simbench.Armv8.Memory.{
  go_on, map_from, mem_create_region_id_mapping_data, mem_create_region_id_mapping_code,
  mem_create_region_device_mapping, map_devices, syscall_mem_init, map_simbench, clear_wxn,
  set_ttbr,
}

-- The exception state.
pub record Exceptions : Type 0 where
  pub table : ℕ → Option Handler
  pub irq_handler : Option ℕ
  pub calls : List ℕ
  pub mode : ℕ
  pub saved : ℕ
  pub back : ℕ
  pub map : Layout

abbrev pub exceptions : Core → Exceptions
exceptions s = record {
  table = s.el0_sync_table;
  irq_handler = s.el0_irq_handler;
  calls = s.irq_calls;
  mode = s.pstate;
  saved = s.spsr;
  back = s.elr;
  map = s.layout;
}

-- Where the code returns, the exception state is as it was.
abbrev pub AreKept : {A : Type 0} → Core → Outcome Core A → Type 0
AreKept s (returns a t) = exceptions t ≡ exceptions s
AreKept s aborts = Unit {0}
AreKept s unfinished = Unit {0}

abbrev pub Keeps : {A : Type 0} → M A → Type 0
Keeps m = (s : Core) → AreKept s (m s)

AreKept-from :
    {A : Type 0} (s t : Core) (o : Outcome Core A)
    → exceptions t ≡ exceptions s
    → AreKept t o
    → AreKept s o
AreKept-from s t (returns a u) e kept = kept ∙ e
AreKept-from s t aborts e kept = tt
AreKept-from s t unfinished e kept = tt

AreKept-and_then :
    {A B : Type 0} (s : Core) (o : Outcome Core A) (k : A → M B)
    → AreKept s o
    → ((a : A) → Keeps (k a))
    → AreKept s (and_then o k)
AreKept-and_then s (returns a t) k kept keeps = AreKept-from s t (k a t) kept (keeps a t)
AreKept-and_then s aborts k kept keeps = tt
AreKept-and_then s unfinished k kept keeps = tt

Keeps-bind :
    {A B : Type 0} (m : M A) (k : A → M B) → Keeps m → ((a : A) → Keeps (k a)) → Keeps (m >>= k)
Keeps-bind m k kept keeps s = AreKept-and_then s (m s) k (kept s) keeps

Keeps-if : {A : Type 0} (c : Bool) (m n : M A) → Keeps m → Keeps n → Keeps (if c then m else n)
Keeps-if true m n m_keeps n_keeps = m_keeps
Keeps-if false m n m_keeps n_keeps = n_keeps

AreKept-if :
    {A : Type 0} (s : Core) (c : Bool) (o p : Outcome Core A)
    → AreKept s o
    → AreKept s p
    → AreKept s (if c then o else p)
AreKept-if s true o p o_kept p_kept = o_kept
AreKept-if s false o p o_kept p_kept = p_kept

Keeps-armv8_heap_get_page : Keeps armv8_heap_get_page
unfolding armv8_heap_get_page
Keeps-armv8_heap_get_page s =
    AreKept-if {A = ℕ} s (ltb s.layout.heap_end ((s.heap_ptr + 4096) % 2 ^ 64)) aborts
      (pure s.heap_ptr (record s { heap_ptr = (s.heap_ptr + 4096) % 2 ^ 64 })) tt refl

Keeps-get_l0_table : Keeps get_l0_table
unfolding get_l0_table
Keeps-get_l0_table s =
    Keeps-if (s.l0_table == 0) (table_or_new 0) (pure s.l0_table)
      (Keeps-bind armv8_heap_get_page _ Keeps-armv8_heap_get_page (λ page t. refl)) (λ t. refl) s

Keeps-clear_table : (table : ℕ) → Keeps (clear_table table)
unfolding clear_table
Keeps-clear_table table s = refl

Keeps-page_or_new : (page : ℕ) → Keeps (page_or_new page)
Keeps-page_or_new page =
    Keeps-if (page == 0) armv8_heap_get_page (pure page) Keeps-armv8_heap_get_page (λ t. refl)

Keeps-present_or_new : (entry descriptor : ℕ) → Keeps (present_or_new entry descriptor)
unfolding present_or_new
Keeps-present_or_new entry descriptor =
    let finish = λ (page : ℕ). store entry (bit_or page 3) >> pure (bit_or page 3) in
    let fill = λ (page : ℕ). clear_table page >> finish page in
    Keeps-if (bit_and descriptor 3 == 0) (page_or_new (bit_and descriptor address_mask) >>= fill)
      (pure descriptor)
      (Keeps-bind (page_or_new (bit_and descriptor address_mask)) fill
        (Keeps-page_or_new (bit_and descriptor address_mask))
        (λ page.
          Keeps-bind (clear_table page) (λ done. finish page) (Keeps-clear_table page)
            (λ done t. refl)))
      (λ t. refl)

Keeps-get_descriptor : (shift table virt_addr : ℕ) → Keeps (get_descriptor shift table virt_addr)
unfolding get_descriptor
Keeps-get_descriptor shift table virt_addr s =
    let entry = table + 8 * bit_and (virt_addr / 2 ^ shift % 2 ^ 32) 511 in
    Keeps-present_or_new entry (s.memory entry) s

Keeps-leaf_table : (virt_addr : ℕ) → Keeps (leaf_table virt_addr)
unfolding leaf_table get_l1_table get_l2_table get_l3_table
Keeps-leaf_table virt_addr =
    let level : (shift table : ℕ)
        → Keeps (do
          descriptor ← get_descriptor shift table virt_addr
          pure (bit_and descriptor address_mask)) =
      λ shift table.
        Keeps-bind (get_descriptor shift table virt_addr) _
          (Keeps-get_descriptor shift table virt_addr) (λ d t. refl) in
    Keeps-bind get_l0_table _ Keeps-get_l0_table (λ l0.
      Keeps-bind (get_l1_table l0 virt_addr) _ (level 39 l0)
        (λ l1. Keeps-bind (get_l2_table l1 virt_addr) _ (level 30 l1) (λ l2. level 21 l2)))

Keeps-data : (p v : ℕ) → Keeps (mem_create_page_mapping_data p v)
unfolding mem_create_page_mapping_data insert_mapping
Keeps-data p v = Keeps-bind (leaf_table v) _ (Keeps-leaf_table v) (λ l3 t. refl)

Keeps-code : (p v : ℕ) → Keeps (mem_create_page_mapping_code p v)
unfolding mem_create_page_mapping_code insert_mapping
Keeps-code p v = Keeps-bind (leaf_table v) _ (Keeps-leaf_table v) (λ l3 t. refl)

Keeps-device : (p v : ℕ) → Keeps (mem_create_page_mapping_device p v)
unfolding mem_create_page_mapping_device insert_mapping_device
Keeps-device p v = Keeps-bind (leaf_table v) _ (Keeps-leaf_table v) (λ l3 t. refl)

Keeps-map_from :
    (map_page : ℕ → ℕ → M ℕ) (fuel i region_end : ℕ)
    → ((p v : ℕ) → Keeps (map_page p v))
    → Keeps (map_from map_page fuel i region_end)
unfolding map_from
Keeps-map_from map_page zero i region_end keeps s = tt
Keeps-map_from map_page (suc fuel) i region_end keeps s =
    let next = map_from map_page fuel ((i + 4096) % 2 ^ 64) region_end in
    AreKept-if s (ltb region_end i) (pure 0 s) ((map_page i i >>= go_on next) s) refl (
      Keeps-bind (map_page i i) (go_on next) (keeps i i)
        (λ failed.
          Keeps-if (failed == 0) next (pure 1)
            (Keeps-map_from map_page fuel ((i + 4096) % 2 ^ 64) region_end keeps) (λ t. refl))
        s)

Keeps-map_devices : (fuel : ℕ) (devices : List (ℕ × ℕ)) → Keeps (map_devices fuel devices)
unfolding map_devices mem_create_region_device_mapping
Keeps-map_devices fuel [] s = refl
Keeps-map_devices fuel ((start, last) ∷ devices) s =
    Keeps-bind (mem_create_region_device_mapping fuel start last) _
      (Keeps-map_from mem_create_page_mapping_device fuel _ last Keeps-device)
      (λ done. Keeps-map_devices fuel devices) s

Keeps-map_simbench : (fuel : ℕ) → Keeps (map_simbench fuel)
unfolding map_simbench mem_create_region_id_mapping_code mem_create_region_id_mapping_data
Keeps-map_simbench fuel s =
    Keeps-bind (mem_create_region_id_mapping_code fuel s.layout.text_start s.layout.text_end) _
      (Keeps-map_from mem_create_page_mapping_code fuel _ s.layout.text_end Keeps-code)
      (λ done.
        Keeps-bind (mem_create_region_id_mapping_data fuel s.layout.data_start s.layout.data_end) _
          (Keeps-map_from mem_create_page_mapping_data fuel _ s.layout.data_end Keeps-data)
          (λ done.
            Keeps-bind (map_devices fuel s.layout.devices) _
              (Keeps-map_devices fuel s.layout.devices) (λ done t. refl)))
      s

pub Keeps-syscall_mem_init : (fuel : ℕ) → Keeps (syscall_mem_init fuel)
unfolding syscall_mem_init get_txln_table clear_txln_table
Keeps-syscall_mem_init fuel s =
    let map = λ (done : Unit {0}). map_simbench fuel in
    let set = λ (table : ℕ). modify (set_ttbr table) >> (clear_txln_table >>= map) in
    let cleared = Keeps-bind get_l0_table clear_table Keeps-get_l0_table Keeps-clear_table in
    let mapped = Keeps-bind clear_txln_table map cleared (λ done. Keeps-map_simbench fuel) in
    AreKept-from s (clear_wxn s) ((get_txln_table >>= set) (clear_wxn s)) refl (
      Keeps-bind get_txln_table set Keeps-get_l0_table
        (λ table t.
          AreKept-from t (set_ttbr table t) ((clear_txln_table >>= map) (set_ttbr table t)) refl
            (mapped (set_ttbr table t)))
        (clear_wxn s))
