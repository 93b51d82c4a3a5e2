-- ===== src/Base/Words.antt =====
-- The bits of a word of 32 bits.
use simbench.Base.{
  ℕ, zero, suc, ◌-◌, ◌/◌, ◌%◌, ◌^◌, ◌≤◌, ◌<◌, min, max, bit_and, bit_or, ◌==◌, ◌≡◌, refl, sym, ap,
  ◌∙◌, Bool, true, ◌&&◌, inl, inr, arith, ==_iff, eq_or_ne, Bool-cases, bit_at, bit_at-bit_or,
  bit_at-bit_and, bit_and_mask,
}
use mathlib.Core.Bool.{false≢true}

-- A test of every number below a bound.
abbrev pub all_below : ℕ → (ℕ → Bool) → Bool
all_below zero p = true
all_below (suc n) p = p n && all_below n p

pub all_below-holds : (n : ℕ) (p : ℕ → Bool) → all_below n p ≡ true → (i : ℕ) → i < n → p i ≡ true
all_below-holds zero p all i h = absurd (omega arith)
all_below-holds (suc n) p all i h = elim (Bool-cases (p n)) [
  | inr off ↦ absurd (false≢true (rw off at all))
  | inl on ↦ elim (eq_or_ne i n) [
    | inl e ↦ rw e on
    | inr below ↦ all_below-holds n p (rw on at all) i (omega arith)
  ]
]

-- A table of the bits of a word, read at every place.
pub bits_of :
    (w : ℕ) (table : ℕ → ℕ)
    → all_below 32 (λ n. bit_at n w == table n) ≡ true
    → (n : ℕ) → n < 32
    → bit_at n w ≡ table n
bits_of w table all n h =
    (==_iff (bit_at n w) (table n)).0 (all_below-holds 32 (λ n. bit_at n w == table n) all n h)

pub bit_at-bound : (n w : ℕ) → bit_at n w ≤ 1
bit_at-bound zero w = omega arith
bit_at-bound (suc n) w = bit_at-bound n (w / 2)

-- The bits of a word that its low 32 bits keep.
pub bit_at-low : (n w : ℕ) → n < 32 → bit_at n (w % 2 ^ 32) ≡ bit_at n w
bit_at-low n w h =
    ap (bit_at n) (sym (bit_and_mask 32 w))
    ∙ bit_at-bit_and n w (2 ^ 32 - 1)
    ∙ omega (arith, bits_of (2 ^ 32 - 1) (λ n. 1) refl n h, bit_at-bound n w)

-- What replacing a field of a word does to each of its bits: outside the mask those of `set`, inside
-- those of the word.
pub bit_at-replaced :
    (n w mask set : ℕ)
    → n < 32
    → bit_at n (bit_or (bit_and (w % 2 ^ 32) mask) set)
      ≡ max (min (bit_at n w) (bit_at n mask)) (bit_at n set)
bit_at-replaced n w mask set h =
    bit_at-bit_or n (bit_and (w % 2 ^ 32) mask) set
    ∙ ap (λ b. max b (bit_at n set))
        (bit_at-bit_and n (w % 2 ^ 32) mask ∙ ap (λ b. min b (bit_at n mask)) (bit_at-low n w h))
