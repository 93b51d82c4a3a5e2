-- ===== src/Armv8/Leaf.antt =====
-- The page descriptors that arch/armv8/txln_table.c writes, as the processor reads them.
use simbench.Base.{
  ℕ, ◌+◌, ◌*◌, ◌/◌, ◌%◌, ◌^◌, ◌<◌, ◌≡◌, ◌∙◌, ◌⊎◌, inl, inr, refl, ap, arith, bit_and, bit_or,
  bit_or_field, bit_or_low, bit_and_field,
}
use simbench.Armv8.Table.{page_mask, page_descriptor, device_descriptor}

-- A valid page descriptor of the page that `phys_addr` lies in, with the access permissions `privs`,
-- the memory attributes of index `attributes` and the access flag set.
pub record IsPage (phys_addr privs attributes descriptor : ℕ) : Type 0 where
  pub valid : descriptor % 2 ^ 2 ≡ 3
  pub attribute_index : descriptor / 2 ^ 2 % 2 ^ 3 ≡ attributes
  pub permissions : descriptor / 2 ^ 6 % 2 ^ 2 ≡ privs
  pub accessed : descriptor / 2 ^ 10 % 2 ≡ 1
  pub output : descriptor / 2 ^ 12 % 2 ^ 36 * 2 ^ 12 ≡ phys_addr / 2 ^ 12 * 2 ^ 12
  pub upper : descriptor / 2 ^ 48 ≡ 0

-- A sequence of low bits joined to a page's address.
abbrev pub page_of : ℕ → ℕ
page_of phys_addr = phys_addr / 2 ^ 12 % 2 ^ 52

or_page :
    (phys_addr low bits : ℕ)
    → low < 2 ^ 12
    → bits < 2 ^ 12
    → bit_or (page_of phys_addr * 2 ^ 12 + low) bits ≡ page_of phys_addr * 2 ^ 12 + bit_or low bits
or_page phys_addr low bits low_bound bits_bound =
    bit_or_low 12 (page_of phys_addr) low bits low_bound bits_bound

masked : (phys_addr : ℕ) → bit_or (bit_and phys_addr page_mask) 3 ≡ page_of phys_addr * 2 ^ 12 + 3
masked phys_addr =
    ap (λ a. bit_or a 3) (bit_and_field 12 52 phys_addr)
    ∙ bit_or_field 12 (page_of phys_addr) 3 (omega arith)

pub page_descriptor-sum :
    (phys_addr privs : ℕ)
    → (privs ≡ 1) ⊎ (privs ≡ 3)
    → page_descriptor phys_addr privs ≡ page_of phys_addr * 2 ^ 12 + (0x403 + privs * 2 ^ 6)
unfolding page_descriptor
page_descriptor-sum phys_addr privs (inl e) =
    rw
      (
        e,
        masked phys_addr,
        or_page phys_addr 3 0x40 (omega arith) (omega arith),
        or_page phys_addr 0x43 0x400 (omega arith) (omega arith),
      )
      refl
page_descriptor-sum phys_addr privs (inr e) =
    rw
      (
        e,
        masked phys_addr,
        or_page phys_addr 3 0xc0 (omega arith) (omega arith),
        or_page phys_addr 0xc3 0x400 (omega arith) (omega arith),
      )
      refl

pub device_descriptor-sum :
    (phys_addr : ℕ) → device_descriptor phys_addr ≡ page_of phys_addr * 2 ^ 12 + 0x447
unfolding device_descriptor
device_descriptor-sum phys_addr =
    rw
      (
        masked phys_addr,
        or_page phys_addr 3 0x40 (omega arith) (omega arith),
        or_page phys_addr 0x43 4 (omega arith) (omega arith),
        or_page phys_addr 0x47 0x400 (omega arith) (omega arith),
      )
      refl

sum-IsPage :
    (phys_addr privs attributes descriptor : ℕ)
    → phys_addr < 2 ^ 48
    → privs < 4
    → attributes < 8
    → descriptor ≡ page_of phys_addr * 2 ^ 12 + (0x403 + privs * 2 ^ 6 + attributes * 2 ^ 2)
    → IsPage phys_addr privs attributes descriptor
sum-IsPage phys_addr privs attributes descriptor h p a e = record {
  valid = omega arith;
  attribute_index = omega arith;
  permissions = omega arith;
  accessed = omega arith;
  output = omega arith;
  upper = omega arith;
}

-- For a 48-bit physical address, the descriptor that `insert_mapping` writes with the privileges of
-- data or of code is a valid one for that page with those privileges and memory attributes 0, and
-- the one of `insert_mapping_device` has the privileges of data and memory attributes 1.
pub descriptors-ArePages :
    (phys_addr privs : ℕ)
    → phys_addr < 2 ^ 48
    → (privs ≡ 1) ⊎ (privs ≡ 3)
    → IsPage phys_addr privs 0 (page_descriptor phys_addr privs)
      × IsPage phys_addr 1 1 (device_descriptor phys_addr)
descriptors-ArePages phys_addr privs h known = (
  sum-IsPage phys_addr privs 0 (page_descriptor phys_addr privs) h (ground arith) (omega arith)
      (omega (arith, page_descriptor-sum phys_addr privs known)),
  sum-IsPage phys_addr 1 1 (device_descriptor phys_addr) h (omega arith) (omega arith)
      (omega (arith, device_descriptor-sum phys_addr)),
)
