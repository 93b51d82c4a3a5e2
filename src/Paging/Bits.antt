-- ===== src/Paging/Bits.antt =====
-- The accessors of page-table entries as arithmetic.
use simbench.Base.{
  ℕ, ◌+◌, ◌*◌, ◌/◌, ◌%◌, ◌^◌, ◌==◌, ◌≡◌, arith, bit_and, bit_and_mask, bit_and_field, bit_or_field,
  bit_or_comm,
}
use simbench.Paging.Entry.{
  base_mask, set_base_address, get_base_address, set_flags, get_flags, is_present,
  calculate_indicies,
}

-- The page that an entry points to, at most 2^64.
abbrev pub base_of : ℕ → ℕ
base_of e = e / 4096 % 2 ^ 52 * 4096

bit_and-base_mask : (e : ℕ) → bit_and e base_mask ≡ base_of e
bit_and-base_mask e = bit_and_field 12 52 e

bit_and-flags_mask : (e : ℕ) → bit_and e 0xfff ≡ e % 4096
bit_and-flags_mask e = bit_and_mask 12 e

pub get_base_address-eq : (e : ℕ) → get_base_address e ≡ base_of e
unfolding get_base_address
get_base_address-eq e = bit_and-base_mask e

pub set_base_address-eq : (e b : ℕ) → set_base_address e b ≡ base_of b + e % 4096
unfolding set_base_address
set_base_address-eq e b =
    rw (bit_and-base_mask, bit_and-flags_mask)
      (bit_or_field 12 (b / 4096 % 2 ^ 52) (e % 4096) (omega arith))

pub set_flags-eq : (e f : ℕ) → set_flags e f ≡ base_of e + f % 4096
unfolding set_flags
set_flags-eq e f =
    rw (bit_and-flags_mask, bit_and-base_mask, bit_or_comm)
      (bit_or_field 12 (e / 4096 % 2 ^ 52) (f % 4096) (omega arith))

pub is_present-eq : (e : ℕ) → is_present e ≡ (e % 2 == 1)
unfolding is_present get_flags
is_present-eq e = rw (bit_and-flags_mask, bit_and_mask 1) (ground arith)

-- The index at shift `k` of a virtual address.
pub calculate_indicies-eq :
    (va : ℕ)
    → calculate_indicies va ≡ record {
      pml = va / 2 ^ 39 % 512;
      pdp = va / 2 ^ 30 % 512;
      pd = va / 2 ^ 21 % 512;
      pt = va / 2 ^ 12 % 512;
    }
unfolding calculate_indicies
calculate_indicies-eq va = simp (bit_and_mask 9)
