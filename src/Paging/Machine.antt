-- ===== src/Paging/Machine.antt =====
-- The state of arch/x86_64/heap.c and arch/x86_64/mem.c, and the page heap.
use simbench.Base.{ℕ, ◌+◌, ◌%◌, ◌^◌, ◌==◌, ltb, leb, Bool, if◌then◌else◌, ◌&&◌, Option, none, some}

-- Which function `page_fault_handler_fn` (of arch/x86_64/irq.c) points to.
pub data FaultHandler : Type 0 where
  unset default_page_fault_handler return_handler mem_skip_handler : FaultHandler

-- `memory` gives the 64-bit word at each 8-aligned address. `cr3` is the processor's.
pub record Machine : Type 0 where
  pub memory : ℕ → ℕ
  pub heap_base : ℕ
  pub heap_cur : ℕ
  pub heap_end : ℕ
  pub heap_size : ℕ
  pub initial_pagetables : ℕ
  pub runtime_pagetables : ℕ
  pub mem_inited : Bool
  pub page_fault_handler_fn : FaultHandler
  pub cr3 : ℕ

-- `none` is `arch_abort`, which does not return.
abbrev pub M : Type 0 → Type 0
M A = Machine → Option (A × Machine)

abbrev pub pure : {A : Type 0} → A → M A
pure a s = some (a, s)

abbrev pub arch_abort : {A : Type 0} → M A
arch_abort s = none

abbrev pub and_then : {A B : Type 0} → Option (A × Machine) → (A → M B) → Option (B × Machine)
and_then none k = none
and_then (some (a, s)) k = k a s

infixl 5 ◌>>=◌ ◌>>◌
abbrev pub ◌>>=◌ : {A B : Type 0} → M A → (A → M B) → M B
m >>= k = λ s. and_then (m s) k

abbrev pub ◌>>◌ : {B : Type 0} → M (Unit {0}) → M B → M B
m >> k = m >>= λ _. k

abbrev pub update : (ℕ → ℕ) → ℕ → ℕ → ℕ → ℕ
update f a v b = if b == a then v else f b

abbrev pub load : ℕ → M ℕ
load a s = some (s.memory a, s)

abbrev pub store : ℕ → ℕ → M (Unit {0})
store a v s = some (tt, record s { memory = update s.memory a v })

-- `__fast_zero_page` of arch/x86_64/util.S: 512 words from `page` on.
unfoldable pub fast_zero_page : ℕ → (ℕ → ℕ) → ℕ → ℕ
fast_zero_page page f b = if leb page b && ltb b (page + 0x1000) then 0 else f b

-- The linker's symbols.
pub record Symbols : Type 0 where
  pub text_start : ℕ
  pub text_end : ℕ
  pub data_start : ℕ
  pub data_end : ℕ
  pub heap_start : ℕ
  pub heap_bytes : ℕ

unfoldable pub heap_init : Symbols → M (Unit {0})
heap_init sym s = some (
  tt,
  record s {
    heap_base = sym.heap_start;
    heap_cur = sym.heap_start;
    heap_size = sym.heap_bytes;
    heap_end = (sym.heap_start + sym.heap_bytes) % 2 ^ 64;
  },
)

unfoldable pub heap_alloc_page : M ℕ
unfolding fast_zero_page
heap_alloc_page s =
    if leb s.heap_end s.heap_cur
    then none
    else some (
      s.heap_cur,
      record s {
        heap_cur = (s.heap_cur + 0x1000) % 2 ^ 64;
        memory = fast_zero_page s.heap_cur s.memory;
      },
    )

-- `heap_free_page` does nothing.
unfoldable pub heap_free_page : ℕ → M (Unit {0})
heap_free_page p = pure tt
