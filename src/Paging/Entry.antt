-- ===== src/Paging/Entry.antt =====
-- `pte` and its accessors, of arch/x86_64/mem.c.
use simbench.Base.{ℕ, ◌==◌, Bool, not, bit_and, bit_or, ◌/◌, ◌^◌, ◌-◌}

abbrev pub pf_present : ℕ
pf_present = 1

abbrev pub pf_writable : ℕ
pf_writable = 2

abbrev pub pf_user : ℕ
pf_user = 4

-- `~0xfffULL`.
abbrev pub base_mask : ℕ
base_mask = 2 ^ 64 - 1 - 0xfff

unfoldable pub set_base_address : ℕ → ℕ → ℕ
set_base_address pte base_addr = bit_or (bit_and base_addr base_mask) (bit_and pte 0xfff)

unfoldable pub get_base_address : ℕ → ℕ
get_base_address pte = bit_and pte base_mask

unfoldable pub set_flags : ℕ → ℕ → ℕ
set_flags pte flags = bit_or (bit_and flags 0xfff) (bit_and pte base_mask)

unfoldable pub get_flags : ℕ → ℕ
get_flags pte = bit_and pte 0xfff

unfoldable pub is_present : ℕ → Bool
unfolding get_flags
is_present pte = not (bit_and (get_flags pte) pf_present == 0)

pub record TableIndices : Type 0 where
  pub pml : ℕ
  pub pdp : ℕ
  pub pd : ℕ
  pub pt : ℕ

unfoldable pub calculate_indicies : ℕ → TableIndices
calculate_indicies virt_addr = record {
  pml = bit_and (virt_addr / 2 ^ 39) 0x1ff;
  pdp = bit_and (virt_addr / 2 ^ 30) 0x1ff;
  pd = bit_and (virt_addr / 2 ^ 21) 0x1ff;
  pt = bit_and (virt_addr / 2 ^ 12) 0x1ff;
}
