-- ===== src/Benchmarks/Port.antt =====
-- The operations of include/mem.h that the benchmarks call, as the architecture gives them.
use simbench.Base.{ℕ, List, ◌∷◌}
pub use simbench.Base.Outcome.{
  Outcome, returns, aborts, unfinished, and_then, ◌>>=◌, ◌>>◌, pure, modify,
}

-- An architecture with the state `S`; `address_bits` is the width of its `uintptr_t`.
pub record Port (S : Type 0) : Type 0 where
  pub address_bits : ℕ
  pub mem_get_page_size : ℕ
  pub mem_init : S → Outcome S (Unit {0})
  pub mem_reset : S → Outcome S (Unit {0})
  pub mem_mmu_enable : S → Outcome S (Unit {0})
  pub mem_mmu_disable : S → Outcome S (Unit {0})
  pub mem_tlb_flush : S → Outcome S (Unit {0})
  pub mem_tlb_evict : ℕ → S → Outcome S (Unit {0})
  pub mem_create_page_mapping_data : ℕ → ℕ → S → Outcome S ℕ

-- What a kernel does besides: the spinner of util/debug.c, and the accesses to memory.
pub data Event : Type 0 where
  spinner_start : ℕ → Event
  spinner : Event
  read8 : ℕ → Event
  write32 : ℕ → ℕ → Event

-- `events` has the last one first. `virt_start` and `virt_end` are the static variables of the TLB
-- benchmarks.
pub record Run (S : Type 0) : Type 0 where
  pub machine : S
  pub events : List Event
  pub virt_start : ℕ
  pub virt_end : ℕ

abbrev pub M : Type 0 → Type 0 → Type 0
M S A = Run S → Outcome (Run S) A

abbrev pub on_outcome : {S A : Type 0} → Run S → Outcome S A → Outcome (Run S) A
on_outcome s (returns a m) = returns a (record s { machine = m })
on_outcome s aborts = aborts
on_outcome s unfinished = unfinished

-- A call of the architecture.
abbrev pub arch : {S A : Type 0} → (S → Outcome S A) → M S A
arch f s = on_outcome s (f s.machine)

abbrev pub event : {S : Type 0} → Event → M S (Unit {0})
event e = modify (λ s. record s { events = e ∷ s.events })
