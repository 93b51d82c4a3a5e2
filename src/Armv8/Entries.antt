-- ===== src/Armv8/Entries.antt =====
-- The entries of the tables of arch/armv8/txln_table.c as fields, and the loop that clears them.
use simbench.Base.{
  ℕ, zero, suc, ◌+◌, ◌*◌, ◌/◌, ◌%◌, ◌^◌, ◌≤◌, ◌<◌, ◌≡◌, ◌≢◌, inl, inr, refl, ap, ◌∙◌, arith, ne→==,
  eq→==, eq_or_ne, bit_and, bit_or, bit_and_field, bit_or_field, bit_and_mask,
}
use simbench.Armv8.State.{update}
use simbench.Armv8.Table.{address_mask, not_present, clear_entries}

-- The table address in an entry, and where entry `i` of a table is.
abbrev pub base : ℕ → ℕ
base d = d / 2 ^ 12 % 2 ^ 36 * 2 ^ 12

abbrev pub entry : ℕ → ℕ → ℕ
entry p i = p + 8 * i

pub address-base : (d : ℕ) → bit_and d address_mask ≡ base d
address-base d = bit_and_field 12 36 d

pub not_present-clear : (d : ℕ) → d < 2 ^ 64 → bit_and d not_present ≡ d / 4 * 4
not_present-clear d h = bit_and_field 2 62 d ∙ omega arith

pub table-or : (c : ℕ) → c % 4096 ≡ 0 → bit_or c 3 ≡ c + 3
table-or c aligned =
    let split : c / 2 ^ 12 * 2 ^ 12 ≡ c = omega arith in
    ap (λ x. bit_or x 3) (omega arith) ∙ bit_or_field 12 (c / 2 ^ 12) 3 (omega arith) ∙ omega arith

pub flags-mask : (d : ℕ) → bit_and d 3 ≡ d % 4
flags-mask d = bit_and_mask 2 d

pub update_self : (f : ℕ → ℕ) (a v : ℕ) → update f a v a ≡ v
update_self f a v = rw (eq→== a a refl) refl

pub update_ne : (f : ℕ → ℕ) (a v b : ℕ) → b ≢ a → update f a v b ≡ f b
update_ne f a v b h = rw (ne→== b a h) refl

-- A word that is none of the entries from `i` on is as it was.
pub clear_entries-other :
    (rounds i table : ℕ) (f : ℕ → ℕ) (a : ℕ)
    → ((j : ℕ) → i ≤ j → j < i + rounds → a ≢ entry table j)
    → clear_entries rounds i table f a ≡ f a
unfolding clear_entries
clear_entries-other zero i table f a apart = refl
clear_entries-other (suc rounds) i table f a apart =
    clear_entries-other rounds (suc i) table _ a (λ j low high. apart j (omega arith) (omega arith))
    ∙ update_ne f (entry table i) (bit_and (f (entry table i)) not_present) a
        (apart i (omega arith) (omega arith))

-- Each of the entries loses its two lowest bits.
pub clear_entries-in :
    (rounds i table : ℕ) (f : ℕ → ℕ) (j : ℕ)
    → i ≤ j
    → j < i + rounds
    → clear_entries rounds i table f (entry table j) ≡ bit_and (f (entry table j)) not_present
unfolding clear_entries
clear_entries-in zero i table f j low high = absurd (omega arith)
clear_entries-in (suc rounds) i table f j low high = elim (eq_or_ne j i) [
  | inl here ↦ rw here (
      clear_entries-other rounds (suc i) table
        (update f (entry table i) (bit_and (f (entry table i)) not_present)) (entry table i)
        (λ k k_low k_high e. omega arith)
      ∙ update_self f (entry table i) (bit_and (f (entry table i)) not_present))
  | inr above ↦
      clear_entries-in rounds (suc i) table
        (update f (entry table i) (bit_and (f (entry table i)) not_present)) j (omega arith)
        (omega arith)
      ∙ ap (λ d. bit_and d not_present)
          (update_ne f (entry table i) (bit_and (f (entry table i)) not_present) (entry table j)
            (λ e. omega arith))
]
